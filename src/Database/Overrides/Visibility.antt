-- ===== src/Database/Overrides/Visibility.antt =====
-- What a list of overrides shows after AddOverride and RemoveOverride.
use text.Mathlib.TextEquality.{eq_iff}
use text.Mathlib.TextPositions.{eq_refl}
use notmanytask.Base.{
  String, ◌≡◌, refl, sym, ap, ◌∙◌, inl, inr, Bool, true, false, not, ◌&&◌, some, List, [], ◌∷◌, map,
  arith, ℤ, ◌==◌, string_eq, In, In-map, In-append, In-append_right, Bool-cases,
}
use notmanytask.Base.Errors.{ok}
use notmanytask.Base.Time.{Time}
use notmanytask.Models.{OverriddenScore, PipelineStatus}
use notmanytask.Database.Gorm.{Gorm, TableLaws, when_row, any_row}
use notmanytask.Database.Gorm.Rows.{any_row-In, any_row-found, In-when_row_hit, In-when_row_source}
use notmanytask.Database.Users.{is_set}
use notmanytask.Database.Overrides.{
  same_override, set_score, new_override, list_user_overrides, add_override, remove_override,
}

-- gorm's soft delete: a row is live while it has no time of deletion.
abbrev pub is_live : OverriddenScore → Bool
is_live o = not (is_set o.deleted_at)

abbrev pub mark_deleted : Time → OverriddenScore → OverriddenScore
mark_deleted now o = record o { deleted_at = some now }

-- A new row is stored as it is, but for its generated id.
pub record StoredAs (r q : OverriddenScore) : Type 0 where
  pub live : is_live q ≡ is_live r
  pub login : q.gitlab_login ≡ r.gitlab_login
  pub task : q.task ≡ r.task
  pub score : q.score ≡ r.score
  pub status : q.status ≡ r.status

abbrev pub is_for : String → String → OverriddenScore → Bool
is_for login task o = o.gitlab_login == login && o.task == task

module _ {S : Type 0} ⦃g : Gorm S⦄ (now : Time)
    (laws : TableLaws g.overrides is_live (mark_deleted now) StoredAs) (login task : String)
    (score : ℤ) (status : PipelineStatus) where
  -- On a table that meets the laws of gorm, after an AddOverride that succeeded, some row of the table is for the login and task, and every
  -- such row has the score and the status that were given.
  pub add_override-sets :
      (s s' : S)
      → add_override login task score status s ≡ (ok tt, s')
      → ((o : OverriddenScore) × In o (laws.rows s') × (is_for login task o ≡ true))
        × ((o : OverriddenScore)
            → In o (laws.rows s')
            → is_for login task o ≡ true
            → (o.score ≡ score) × (o.status ≡ status))
  unfolding add_override
  add_override-sets s s' e = elim (Bool-cases (any_row (is_for login task) (laws.rows s))) [
    | inl old ↦ rw (laws.upsert_conflict same_override set_score new' s s' e old) (
      let (r, i, t) = any_row-found (is_for login task) (laws.rows s) old in
          (
            set_score r new',
            In-when_row_hit (is_for login task) (λ q. set_score q new') (laws.rows s) r i t,
            t,
          ),
      λ o i k.
          let (r, j, from) =
            In-when_row_source (is_for login task) (λ q. set_score q new') (laws.rows s) o i in
          elim from [
            | inl (t, p) ↦
                (ap (λ (x : OverriddenScore). x.score) p, ap (λ (x : OverriddenScore). x.status) p)
            | inr (t, p) ↦ absurd (cc (ap (is_for login task) p, k, t))
          ],
    )
    | inr fresh ↦
        let (q, stored, p) = laws.upsert_new same_override set_score new' s s' e fresh in
        rw p (
          (q, In-append_right q (laws.rows s) (q ∷ []) (inl refl), for_new q stored),
          λ o i k. elim (In-append o (laws.rows s) (q ∷ []) i) [
            | inl j ↦ absurd (cc (any_row-In (is_for login task) (laws.rows s) o j k, fresh))
            | inr (inl h) ↦ (
              ap (λ (x : OverriddenScore). x.score) h ∙ stored.score,
              ap (λ (x : OverriddenScore). x.status) h ∙ stored.status,
            )
            | inr (inr bad) ↦ absurd bad
          ],
        )
  ]
    where
      new' : OverriddenScore
      new' = new_override login task score status

      for_new : (q : OverriddenScore) → StoredAs new' q → is_for login task q ≡ true
      for_new q stored = rw (stored.login, stored.task) (rw (eq_refl login, eq_refl task))

  -- RemoveOverride hides for good: if the table meets the laws of gorm, with the soft delete of
  -- gorm.Model, and holds an override, then after RemoveOverride and
  -- another AddOverride for its login and task, both successful, no list of the login's overrides
  -- shows one for the task.
  pub override_stays_hidden :
      (s s' s'' : S) (o : OverriddenScore) (shown : List OverriddenScore)
      → In o (laws.rows s)
      → is_for login task o ≡ true
      → remove_override login task s ≡ (ok tt, s')
      → add_override login task score status s' ≡ (ok tt, s'')
      → list_user_overrides login s'' ≡ ok shown
      → ¬ ((q : OverriddenScore) × In q shown × (q.task ≡ task))
  unfolding add_override remove_override list_user_overrides
  override_stays_hidden s s' s'' o shown i key removed added listed (q, j, t) =
      let (in_q, live_q, login_q) =
        (laws.find_ok (λ r. r.gitlab_login == login) s'' shown listed q).0 j in
      let for_q : is_for login task q ≡ true = ground (arith, eq_iff q.task task) in
      let (r, in_r, from) =
        In-when_row_source (is_for login task) (λ r. set_score r new') (laws.rows s') q
          (rw (sym (laws.upsert_conflict same_override set_score new' s' s'' added held)) in_q) in
      elim from [
        | inl (k, p) ↦ cc (dead r in_r k, ap is_live p, live_q)
        | inr (k, p) ↦ cc (ap (is_for login task) p, for_q, k)
      ]
    where
      new' : OverriddenScore
      new' = new_override login task score status

      hit : OverriddenScore → Bool
      hit r = is_live r && is_for login task r

      rows-removed :
          laws.rows s'
          ≡ map (when_row (λ r. is_live r && is_for login task r) (mark_deleted now)) (laws.rows s)
      rows-removed = laws.delete_ok (is_for login task) s s' removed

      dead :
          (r : OverriddenScore)
          → In r (laws.rows s')
          → is_for login task r ≡ true
          → is_live r ≡ false
      dead r in_r k =
          let (x, in_x, from) =
            In-when_row_source (λ r'. is_live r' && is_for login task r') (mark_deleted now)
              (laws.rows s) r (rw (sym rows-removed) in_r) in
          elim from [
            | inl (h, p) ↦ ap is_live p
            | inr (h, p) ↦ ground (arith, ap is_live p, ap (is_for login task) p)
          ]

      still :
          (x : OverriddenScore)
          → is_for login task x ≡ true
          → is_for login task (when_row hit (mark_deleted now) x) ≡ true
      still x k = elim (Bool-cases (hit x)) [ inl e ↦ rw e k | inr e ↦ rw e k ]

      held : any_row (is_for login task) (laws.rows s') ≡ true
      held = rw rows-removed (
          any_row-In (is_for login task) _ (when_row hit (mark_deleted now) o)
            (In-map (when_row hit (mark_deleted now)) o (laws.rows s) i) (still o key))
