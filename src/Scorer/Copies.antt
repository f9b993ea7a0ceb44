-- ===== src/Scorer/Copies.antt =====
-- copyDeadlines of scorer.go, with the arrays that slices share. The fetcher and every Standings hold
-- a Deadlines, and the page of standings reverses the assignments of its own in place.
use mathlib.Core.List.{reverse}
use notmanytask.Base.{
  ℕ, suc, zero, String, ◌≡◌, ◌≢◌, ◌<◌, refl, ◌∙◌, Option, some, List, [], ◌∷◌, ◌++◌, Dict,
  get_elem?, set, length, arith, get_elem?-set_self, get_elem?-set_ne,
}
use notmanytask.Base.Errors.{Result, ok, deref, ◌>>=◌}
use notmanytask.Deadlines.Policy.{ScoringPolicy}
use notmanytask.Deadlines.Types.{TaskGroup, Scoring}
use notmanytask.Generic.{reversed}
use notmanytask.Generic.Reverse.{get_elem?-middle, reversed-ok}

-- The arrays of task groups by their addresses: a new one gets the next address.
abbrev pub Arrays : Type 0
Arrays = List (List TaskGroup)

-- A Deadlines in memory: `assignments` is the address of the slice's array.
pub record DeadlinesRef (W : Type 0) : Type 0 where
  pub assignments : ℕ
  pub scoring : Scoring W
  pub policies : Dict String (Option (ScoringPolicy W))
  pub groups : Dict String ℕ

module _ {W : Type 0} where
  -- `dst := *src`, then an array of its own with the same elements.
  unfoldable pub copy_deadlines : DeadlinesRef W → Arrays → Result (DeadlinesRef W × Arrays)
  copy_deadlines src arrays = do
    elements ← deref (get_elem? arrays src.assignments)
    ok (record src { assignments = length arrays }, arrays ++ (elements ∷ []))

  -- generic.ReverseSlice(standings.Deadlines.Assignments)
  unfoldable pub reverse_assignments : DeadlinesRef W → Arrays → Result Arrays
  unfolding reversed
  reverse_assignments d arrays = do
    elements ← deref (get_elem? arrays d.assignments)
    elements' ← reversed elements
    ok (set arrays d.assignments elements')

get_elem?-append :
    {A : Type 0} (xs ys : List A) (i : ℕ) (a : A)
    → get_elem? xs i ≡ some a
    → (get_elem? (xs ++ ys) i ≡ some a) × (i < length xs)
get_elem?-append [] ys i a e = absurd (cc)
get_elem?-append (x ∷ xs) ys zero a e = (e, omega arith)
get_elem?-append (x ∷ xs) ys (suc i) a e =
    let (q, low) = get_elem?-append xs ys i a e in (q, omega arith)

-- The scoreboard copies the deadlines and the page reverses the copy's assignments: neither fails,
-- the copy has the assignments in the reverse order, and those of the original are as before.
pub copy_deadlines-independent :
    {W : Type 0} (d : DeadlinesRef W) (arrays : Arrays) (elements : List TaskGroup)
    → get_elem? arrays d.assignments ≡ some elements
    → (d' : DeadlinesRef W) × (arrays' arrays'' : Arrays) × (copy_deadlines d arrays
        ≡ ok (d', arrays'))
      × (reverse_assignments d' arrays' ≡ ok arrays'')
      × (get_elem? arrays'' d'.assignments ≡ some (reverse elements))
      × (get_elem? arrays'' d.assignments ≡ some elements)
unfolding copy_deadlines reverse_assignments
copy_deadlines-independent d arrays elements e =
    let grown = arrays ++ (elements ∷ []) in
    let (kept, low) = get_elem?-append arrays (elements ∷ []) d.assignments elements e in
    let own : get_elem? grown (length arrays) ≡ some elements =
      get_elem?-middle arrays elements [] in
    let other : length arrays ≢ d.assignments = λ q. absurd (omega arith) in
    (
      record d { assignments = length arrays },
      grown,
      set grown (length arrays) (reverse elements),
      rw e refl,
      rw (own, reversed-ok elements) refl,
      get_elem?-set_self grown (length arrays) (reverse elements) elements own,
      get_elem?-set_ne grown (length arrays) d.assignments (reverse elements) other ∙ kept,
    )
