-- ===== src/Database/Gorm/Rows.antt =====
-- Lemmas on tests and assignments over the rows of a table.
use notmanytask.Base.{
  ◌≡◌, ◌≢◌, refl, ap, inl, inr, Bool, true, false, List, [], ◌∷◌, map, In, In-map, In-map_source,
  ◌⊎◌, Bool-cases,
}
use notmanytask.Database.Gorm.{when_row, count_rows, any_row}

module _ {R : Type 0} (p : R → Bool) where
  pub count_rows-pos : (rs : List R) → count_rows p rs ≢ 0 → (r : R) × In r rs × (p r ≡ true)
  count_rows-pos [] h = absurd (h refl)
  count_rows-pos (r ∷ rs) h = elim (Bool-cases (p r)) [
    | inl e ↦ (r, inl refl, e)
    | inr e ↦ let (q, i, t) = count_rows-pos rs (λ z. h (rw e z)) in (q, inr i, t)
  ]

  pub any_row-In : (rs : List R) (r : R) → In r rs → p r ≡ true → any_row p rs ≡ true
  any_row-In [] r i e = absurd i
  any_row-In (x ∷ rs) r i e = elim (Bool-cases (p x)) [
    | inl t ↦ rw t
    | inr t ↦ rw t (elim i [ inl q ↦ absurd (cc (ap p q)) | inr j ↦ any_row-In rs r j e ])
  ]

  -- Rows that do not pass the test stay.
  pub In-when_row :
      (f : R → R) (rs : List R) (r : R) → In r rs → p r ≡ false → In r (map (when_row p f) rs)
  In-when_row f rs r i e =
      let here : In (when_row p f r) (map (when_row p f) rs) = In-map (when_row p f) r rs i in
      rw e at here

  pub In-when_row_hit :
      (f : R → R) (rs : List R) (r : R) → In r rs → p r ≡ true → In (f r) (map (when_row p f) rs)
  In-when_row_hit f rs r i e =
      let here : In (when_row p f r) (map (when_row p f) rs) = In-map (when_row p f) r rs i in
      rw e at here

  -- If the assignment makes the test fail, no row passes it afterwards.
  pub count_rows-when_row :
      (f : R → R) (rs : List R)
      → ((r : R) → p r ≡ true → p (f r) ≡ false)
      → count_rows p (map (when_row p f) rs) ≡ 0
  count_rows-when_row f [] h = refl
  count_rows-when_row f (r ∷ rs) h = elim (Bool-cases (p r)) [
    | inl e ↦ rw (e, h r e) (count_rows-when_row f rs h)
    | inr e ↦ rw (e, e) (count_rows-when_row f rs h)
  ]

  pub any_row-found : (rs : List R) → any_row p rs ≡ true → (r : R) × In r rs × (p r ≡ true)
  any_row-found [] e = absurd (cc)
  any_row-found (r ∷ rs) e = elim (Bool-cases (p r)) [
    | inl t ↦ (r, inl refl, t)
    | inr t ↦ let (q, i, u) = any_row-found rs (rw t at e) in (q, inr i, u)
  ]

  -- Where a row of the changed table comes from.
  pub In-when_row_source :
      (f : R → R) (rs : List R) (q : R)
      → In q (map (when_row p f) rs)
      → (r : R) × In r rs × (((p r ≡ true) × (q ≡ f r)) ⊎ ((p r ≡ false) × (q ≡ r)))
  In-when_row_source f rs q i =
      let (r, j, e) = In-map_source (when_row p f) q rs i in
      (
        r,
        j,
        elim (Bool-cases (p r)) [ inl t ↦ inl (t, (rw t at e)) | inr t ↦ inr (t, (rw t at e)) ],
      )
