-- ===== src/Database/Users/Updates.antt =====
-- The updates of one user by the primary key.
use notmanytask.Base.{ℕ, ◌≡◌, ◌≢◌, refl, ap, ◌∙◌, Bool, false, eqb, ◌&&◌, arith, In}
use notmanytask.Base.Errors.{Result, ok, err, panic}
use notmanytask.Models.{User}
use notmanytask.Database.Gorm.{Gorm, TableLaws}
use notmanytask.Database.Gorm.Rows.{count_rows-pos, In-when_row, In-when_row_hit}
use notmanytask.Database.Users.{some_affected, update_user}

some_affected-ok : (r : Result ℕ) → some_affected r ≡ ok tt → (n : ℕ) × (r ≡ ok n) × (n ≢ 0)
unfolding some_affected
some_affected-ok (ok n) e = (n, refl, ground arith)
some_affected-ok (err x) e = absurd (cc)
some_affected-ok panic e = absurd (cc)

module _ {S : Type 0} ⦃g : Gorm S⦄ (live : User → Bool) (remove : User → User)
    (laws : TableLaws g.users live remove (λ r q. q ≡ r)) where
  abbrev keyed : ℕ → User → Bool
  keyed id u = live u && eqb u.id id

  -- An update by the primary key that succeeds has changed a user with this key, and no other user.
  pub update_user-assigns :
      (id : ℕ) (assign : User → User) (s s' : S)
      → update_user id assign s ≡ (ok tt, s')
      → ((u : User) × In u (laws.rows s) × (u.id ≡ id) × In (assign u) (laws.rows s'))
        × ((q : User) → In q (laws.rows s) → q.id ≢ id → In q (laws.rows s'))
  unfolding update_user
  update_user-assigns id assign s s' e =
      let res = g.users.update (λ u. eqb u.id id) assign s in
      let (n, p, more) = some_affected-ok res.0 (ap (λ x. x.0) e) in
      let (rows', count) = laws.update_ok (λ u. eqb u.id id) assign s n s' (λ k. (p k, (e k).1)) in
      let (u, i, hit) = count_rows-pos (keyed id) (laws.rows s) (λ z. more (count ∙ z)) in
      rw rows' (
        (u, i, ground arith, In-when_row_hit (keyed id) assign (laws.rows s) u i hit),
        λ q j other.
            let miss : keyed id q ≡ false = ground arith in
            In-when_row (keyed id) assign (laws.rows s) q j miss,
      )
