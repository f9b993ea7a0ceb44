-- ===== src/Database/Flags/Ownership.antt =====
-- A flag is submitted at most once, and its owner never changes.
use notmanytask.Base.{
  ℕ, String, ◌≡◌, ◌≢◌, refl, ap, ◌∙◌, Bool, false, ◌&&◌, some, arith, string_eq, In,
}
use notmanytask.Base.Errors.{Result, ok, err, panic}
use notmanytask.Models.{Flag}
use notmanytask.Database.Gorm.{Gorm, TableLaws, count_rows}
use notmanytask.Database.Gorm.Rows.{count_rows-when_row, In-when_row}
use notmanytask.Database.Users.{is_set}
use notmanytask.Database.Flags.{is_free, give_to, unknown_flag, submit_flag}

-- SubmitFlag succeeds only if a row was updated.
pub unknown_flag-ok : (r : Result ℕ) → unknown_flag r ≡ ok tt → (n : ℕ) × (r ≡ ok n) × (n ≢ 0)
unfolding unknown_flag
unknown_flag-ok (ok n) e = (n, refl, ground arith)
unknown_flag-ok (err x) e = absurd (ground arith)
unknown_flag-ok panic e = absurd (cc)

module _ {S : Type 0} ⦃g : Gorm S⦄ (live : Flag → Bool) (remove : Flag → Flag)
    (laws : TableLaws g.flags live remove (λ r q. q ≡ r)) where
  abbrev free_rows : String → Flag → Bool
  free_rows id q = live q && is_free id q

  owned_not_free : (id l : String) (q : Flag) → q.gitlab_login ≡ some l → free_rows id q ≡ false
  owned_not_free id l q e = ground (arith, ap is_set e)

  -- On a table of flags that meets the laws of gorm, whatever SubmitFlag answers, a flag that has an
  -- owner stays in the table as it is.
  pub submit_flag-keeps_owner :
      (id login : String) (s s' : S) (res : Result (Unit {0})) (q : Flag) (owner : String)
      → submit_flag id login s ≡ (res, s')
      → In q (laws.rows s)
      → q.gitlab_login ≡ some owner
      → In q (laws.rows s')
  unfolding submit_flag
  submit_flag-keeps_owner id login s s' res q owner e i o =
      let end : (g.flags.update (is_free id) (give_to login) s).1 ≡ s' = ap (λ x. x.1) e in
      go (g.flags.update (is_free id) (give_to login) s).0 refl end
    where
      go :
          (r : Result ℕ)
          → (g.flags.update (is_free id) (give_to login) s).0 ≡ r
          → (g.flags.update (is_free id) (give_to login) s).1 ≡ s'
          → In q (laws.rows s')
      go (ok n) p end =
          rw (laws.update_ok (is_free id) (give_to login) s n s' (λ k. (p k, end k))).0 (
            In-when_row (free_rows id) (give_to login) (laws.rows s) q i
              (owned_not_free id owner q o))
      go (err x) p end =
          rw (laws.update_err (is_free id) (give_to login) s x s' (λ k. (p k, end k))) i
      go panic p end = absurd (laws.update_no_panic _ _ s p)

  no_free_rows :
      (id login : String) (s s' : S)
      → submit_flag id login s ≡ (ok tt, s')
      → count_rows (free_rows id) (laws.rows s') ≡ 0
  unfolding submit_flag
  no_free_rows id login s s' e =
      let res = g.flags.update (is_free id) (give_to login) s in
      let (n, p, _) = unknown_flag-ok res.0 (ap (λ x. x.0) e) in
      rw (laws.update_ok (is_free id) (give_to login) s n s' (λ k. (p k, (e k).1))).0
        (count_rows-when_row (free_rows id) (give_to login) (laws.rows s) (λ r h. ground arith))

  -- On a table of flags that meets the laws of gorm, right after a submit that succeeded no submit of
  -- the same flag succeeds, whoever makes it.
  pub submit_flag_once :
      (id login again : String) (s s' : S)
      → submit_flag id login s ≡ (ok tt, s')
      → (submit_flag id again s').0 ≢ ok tt
  unfolding submit_flag
  submit_flag_once id login again s s' e done =
      let res = g.flags.update (is_free id) (give_to again) s' in
      let (n, p, some') = unknown_flag-ok res.0 done in
      some' (
        (laws.update_ok (is_free id) (give_to again) s' n res.1 (λ k. (p k, res.1))).1
        ∙ no_free_rows id login s s' e)
