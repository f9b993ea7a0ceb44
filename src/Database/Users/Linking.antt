-- ===== src/Database/Users/Linking.antt =====
-- A GitLab account is written only to a user who has none.
use notmanytask.Base.{ℕ, ◌≡◌, ◌≢◌, refl, ap, ◌∙◌, Bool, true, ◌&&◌, arith, In}
use notmanytask.Base.Errors.{Result, ok, err, panic}
use notmanytask.Models.{User, GitlabUser}
use notmanytask.Database.Gorm.{Gorm, TableLaws}
use notmanytask.Database.Gorm.Rows.{count_rows-pos, In-when_row, In-when_row_hit}
use notmanytask.Database.Errors.{mark_duplicate}
use notmanytask.Database.Users.{is_set, is_unlinked, link, some_affected, set_user_gitlab_account}

affected-ok :
    (r : Result ℕ) → some_affected (mark_duplicate r) ≡ ok tt → (n : ℕ) × (r ≡ ok n) × (n ≢ 0)
unfolding some_affected mark_duplicate
affected-ok (ok n) e = (n, refl, ground arith)
affected-ok (err x) e = absurd (ground arith)
affected-ok panic e = absurd (cc)

module _ {S : Type 0} ⦃g : Gorm S⦄ (live : User → Bool) (remove : User → User)
    (laws : TableLaws g.users live remove (λ r q. q ≡ r)) where
  abbrev target : ℕ → User → Bool
  target uid u = live u && is_unlinked uid u

  -- On a table that meets the laws of gorm, if SetUserGitlabAccount succeeds, some user of the table had the id and lacked a GitLab id or login,
  -- and this user's row is now the one with the account's id and login; every user who had both stays.
  pub set_user_gitlab_account-links :
      (uid : ℕ) (account : GitlabUser) (s s' : S)
      → set_user_gitlab_account uid account s ≡ (ok tt, s')
      → ((u : User) × In u (laws.rows s)
          × (is_unlinked uid u ≡ true)
          × In (link account u) (laws.rows s'))
        × ((u : User)
            → In u (laws.rows s)
            → is_set u.gitlab_id ≡ true
            → is_set u.gitlab_login ≡ true
            → In u (laws.rows s'))
  unfolding set_user_gitlab_account
  set_user_gitlab_account-links uid account s s' e =
      let res = g.users.update (is_unlinked uid) (link account) s in
      let (n, p, more) = affected-ok res.0 (ap (λ x. x.0) e) in
      let (rows', count) =
        laws.update_ok (is_unlinked uid) (link account) s n s' (λ k. (p k, (e k).1)) in
      let (u, i, hit) = count_rows-pos (target uid) (laws.rows s) (λ z. more (count ∙ z)) in
      rw rows' (
        (u, i, ground arith, In-when_row_hit (target uid) (link account) (laws.rows s) u i hit),
        λ q j a b. In-when_row (target uid) (link account) (laws.rows s) q j (ground arith),
      )
