-- ===== src/Database/Submits/Upsert.antt =====
-- What the table of pipelines holds after AddPipeline.
use notmanytask.Base.{
  ◌≡◌, ◌≢◌, sym, inl, inr, [], ◌∷◌, Bool, eqb_ℤ_iff, arith, In, In-append_right, In-append_left,
  Bool-cases,
}
use notmanytask.Base.Errors.{ok}
use notmanytask.Models.{Pipeline}
use notmanytask.Database.Gorm.{Gorm, TableLaws, any_row}
use notmanytask.Database.Gorm.Rows.{any_row-In, any_row-found, In-when_row, In-when_row_hit}
use notmanytask.Database.Submits.{same_id, set_status, add_pipeline}

module _ {S : Type 0} ⦃g : Gorm S⦄ (live : Pipeline → Bool) (remove : Pipeline → Pipeline)
    (laws : TableLaws g.pipelines live remove (λ r q. q ≡ r)) (p : Pipeline) where
  abbrev hits : Pipeline → Bool
  hits q = same_id q p

  -- On a table that meets the laws of gorm, after an AddPipeline that succeeded, a pipeline that the table held under another id is as it was,
  -- one that it held under this id keeps its project, task and start and has the new status, and if
  -- it held none under this id, it holds the new one.
  pub add_pipeline-sets_status :
      (s s' : S)
      → add_pipeline p s ≡ (ok tt, s')
      → ((q : Pipeline) → In q (laws.rows s) → q.id ≢ p.id → In q (laws.rows s'))
        × ((q : Pipeline)
            → In q (laws.rows s)
            → q.id ≡ p.id
            → In (record q { status = p.status }) (laws.rows s'))
        × (((q : Pipeline) → In q (laws.rows s) → q.id ≢ p.id) → In p (laws.rows s'))
  unfolding add_pipeline
  add_pipeline-sets_status s s' e = elim (Bool-cases (any_row hits (laws.rows s))) [
    | inl old ↦ rw (laws.upsert_conflict same_id set_status p s s' e old) (
      λ q i ne.
          In-when_row hits (λ r. set_status r p) (laws.rows s) q i
            (ground (arith, eqb_ℤ_iff q.id p.id)),
      λ q i same.
          In-when_row_hit hits (λ r. set_status r p) (laws.rows s) q i
            ((eqb_ℤ_iff q.id p.id).1 same),
      λ fresh.
          let (r, i, t) = any_row-found hits (laws.rows s) old in
          absurd (fresh r i ((eqb_ℤ_iff r.id p.id).0 t)),
    )
    | inr fresh ↦
        let (q', stored, rows') = laws.upsert_new same_id set_status p s s' e fresh in
        rw rows' (
          λ q i ne. In-append_left q (laws.rows s) (q' ∷ []) i,
          λ q i same.
              absurd (cc (any_row-In hits (laws.rows s) q i ((eqb_ℤ_iff q.id p.id).1 same), fresh)),
          λ none'. In-append_right p (laws.rows s) (q' ∷ []) (inl (sym stored)),
        )
  ]
