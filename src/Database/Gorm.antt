-- ===== src/Database/Gorm.antt =====
-- The calls that internal/database makes of gorm, a library: a table is a record of operations on a
-- state of the database, and what the code relies on is a record of laws. A condition in SQL is a
-- test on rows, an assignment a function on rows.
pub mod Rows
pub mod Memory
use notmanytask.Base.{
  ℕ, suc, ◌≡◌, ◌≢◌, Bool, true, false, List, [], ◌∷◌, ◌++◌, map, ◌↔◌, ◌&&◌, In, if◌then◌else◌,
}
use notmanytask.Base.Errors.{Error, Result, ok, err, panic}
use notmanytask.Models.{User, Pipeline, Session, Flag, OverriddenScore}

pub record Table (S R : Type 0) : Type 0 where
  pub find : (R → Bool) → S → Result (List R)
  pub first : (R → Bool) → S → Result R
  pub take : (R → Bool) → S → Result (R × ℕ)  -- with RowsAffected
  pub create : R → S → Result (Unit {0}) × S
  -- FirstOrCreate: the test finds a row, the row is created where there is none.
  pub first_or_create : (R → Bool) → R → S → Result R × S
  -- Where and Update(s): the answer is RowsAffected.
  pub update : (R → Bool) → (R → R) → S → Result ℕ × S
  -- Create under OnConflict: which rows conflict with the new one, and what is assigned to them.
  pub upsert : (R → R → Bool) → (R → R → R) → R → S → Result (Unit {0}) × S
  pub delete : (R → Bool) → S → Result (Unit {0}) × S

pub record Gorm (S : Type 0) : Type 0 where
  pub users : Table S User
  pub pipelines : Table S Pipeline
  pub sessions : Table S Session
  pub flags : Table S Flag
  pub overrides : Table S OverriddenScore

abbrev pub when_row : {R : Type 0} → (R → Bool) → (R → R) → R → R
when_row p f r = if p r then f r else r

abbrev pub count_rows : {R : Type 0} → (R → Bool) → List R → ℕ
count_rows p [] = 0
count_rows p (r ∷ rs) = let n = count_rows p rs in if p r then suc n else n

abbrev pub any_row : {R : Type 0} → (R → Bool) → List R → Bool
any_row p [] = false
any_row p (r ∷ rs) = if p r then true else any_row p rs

-- What gorm and the database document of a table. `rows` are all its rows, those marked as deleted
-- included; `live` tells the others, and `remove` marks a row. `Stored r q` says that the new row
-- `r` is stored as `q`, the generated columns apart.
pub record TableLaws {S R : Type 0} (t : Table S R) (live : R → Bool) (remove : R → R)
    (Stored : R → R → Type 0) : Type 1 where
  pub rows : S → List R
  -- A query that succeeds returns the rows that are not deleted and pass the test.
  pub find_ok :
      (p : R → Bool) (s : S) (found : List R)
      → t.find p s ≡ ok found
      → (r : R) → In r found ↔ (In r (rows s) × (live r ≡ true) × (p r ≡ true))
  pub first_ok :
      (p : R → Bool) (s : S) (r : R)
      → t.first p s ≡ ok r
      → In r (rows s) × (live r ≡ true) × (p r ≡ true)
  -- An UPDATE that succeeds changes exactly the rows that pass the test, and counts them.
  pub update_ok :
      (p : R → Bool) (f : R → R) (s : S) (n : ℕ) (s' : S)
      → t.update p f s ≡ (ok n, s')
      → (rows s' ≡ map (when_row (λ r. live r && p r) f) (rows s))
        × (n ≡ count_rows (λ r. live r && p r) (rows s))
  -- Failures are values.
  pub update_no_panic : (p : R → Bool) (f : R → R) (s : S) → (t.update p f s).0 ≢ panic
  pub update_err :
      (p : R → Bool) (f : R → R) (s : S) (e : Error) (s' : S)
      → t.update p f s ≡ (err e, s')
      → rows s' ≡ rows s
  -- An INSERT … ON CONFLICT DO UPDATE assigns to the conflicting rows, whether deleted or not.
  pub upsert_conflict :
      (c : R → R → Bool) (f : R → R → R) (r : R) (s s' : S)
      → t.upsert c f r s ≡ (ok tt, s')
      → any_row (λ q. c q r) (rows s) ≡ true
      → rows s' ≡ map (when_row (λ q. c q r) (λ q. f q r)) (rows s)
  pub upsert_new :
      (c : R → R → Bool) (f : R → R → R) (r : R) (s s' : S)
      → t.upsert c f r s ≡ (ok tt, s')
      → any_row (λ q. c q r) (rows s) ≡ false
      → (q : R) × Stored r q × (rows s' ≡ rows s ++ (q ∷ []))
  pub delete_ok :
      (p : R → Bool) (s s' : S)
      → t.delete p s ≡ (ok tt, s')
      → rows s' ≡ map (when_row (λ r. live r && p r) remove) (rows s)
