-- ===== src/Database/Gorm/Memory.antt =====
-- A table in memory that meets the laws: a state is the list of its rows. The other tables are down.
use notmanytask.Base.{
  ℕ, ◌≡◌, Bool, true, List, [], ◌∷◌, ◌++◌, map, ◌&&◌, ◌↔◌, In, In-select, select, if◌then◌else◌, ap,
  sym, ◌∙◌, inl, arith,
}
use notmanytask.Base.Errors.{Result, ok, err, not_found, external}
use notmanytask.Database.Gorm.{Table, TableLaws, when_row, count_rows, any_row}

abbrev pub down : {S R : Type 0} → Table S R
down = record {
  find = λ p s. err (external "down");
  first = λ p s. err (external "down");
  take = λ p s. err (external "down");
  create = λ r s. (err (external "down"), s);
  first_or_create = λ p r s. (err (external "down"), s);
  update = λ p f s. (err (external "down"), s);
  upsert = λ c f r s. (err (external "down"), s);
  delete = λ p s. (err (external "down"), s);
}

module _ {R : Type 0} (live : R → Bool) (remove : R → R) where
  abbrev pub is_hit : (R → Bool) → R → Bool
  is_hit p r = live r && p r

  abbrev pub head_or : List R → Result R
  head_or [] = err not_found
  head_or (r ∷ rs) = ok r

  abbrev pub take_or : List R → Result (R × ℕ)
  take_or [] = err not_found
  take_or (r ∷ rs) = ok (r, 1)

  abbrev pub create_or : R → List R → List R → Result R × List R
  create_or r s [] = (ok r, s ++ (r ∷ []))
  create_or r s (q ∷ qs) = (ok q, s)

  abbrev pub list_table : Table (List R) R
  list_table = record {
    find = λ p s. ok (select (is_hit p) s);
    first = λ p s. head_or (select (is_hit p) s);
    take = λ p s. take_or (select (is_hit p) s);
    create = λ r s. (ok tt, s ++ (r ∷ []));
    first_or_create = λ p r s. create_or r s (select (is_hit p) s);
    update = λ p f s. (ok (count_rows (is_hit p) s), map (when_row (is_hit p) f) s);
    upsert = λ c f r s. (
      ok tt,
      if any_row (λ q. c q r) s then map (when_row (λ q. c q r) (λ q. f q r)) s else s ++ (r ∷ []),
    );
    delete = λ p s. (ok tt, map (when_row (is_hit p) remove) s);
  }

  pub split_hit :
      (p : R → Bool) (r : R) (s : List R)
      → In r (select (is_hit p) s) ↔ (In r s × (live r ≡ true) × (p r ≡ true))
  split_hit p r s = (
    λ i. let (j, e) = (In-select (is_hit p) r s).0 i in (j, ground arith, ground arith),
    λ (j, e, e'). (In-select (is_hit p) r s).1 (j, ground arith),
  )

  pub head_hit :
      (p : R → Bool) (r : R) (s : List R)
      → head_or (select (is_hit p) s) ≡ ok r
      → In r (select (is_hit p) s)
  head_hit p r s e = go (select (is_hit p) s) e
    where
      go : (rs : List R) → head_or rs ≡ ok r → In r rs
      go [] q = absurd (cc)
      go (q ∷ qs) t = inl (cc)

  abbrev pub list_table-laws :
      (Stored : R → R → Type 0) → ((r : R) → Stored r r) → TableLaws list_table live remove Stored
  list_table-laws Stored as_is = record {
    rows = λ s. s;
    find_ok = λ p s found e r.
        let same : select (is_hit p) s ≡ found = cc in rw (← same) (split_hit p r s);
    first_ok = λ p s r e. (split_hit p r s).0 (head_hit p r s e);
    update_ok = λ p f s n s' e. (cc, cc);
    update_no_panic = λ p f s e. cc;
    update_err = λ p f s x s' e. cc;
    upsert_conflict = λ c f r s s' e a. ap (λ x. x.1) (sym e) ∙ rw a;
    upsert_new = λ c f r s s' e a. (r, as_is r, ap (λ x. x.1) (sym e) ∙ rw a);
    delete_ok = λ p s s' e. cc;
  }
