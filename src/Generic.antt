-- ===== src/Generic.antt =====
-- pkg/generic/slices.go: the elements of a slice are swapped in place, from both ends to the middle.
pub mod Reverse
use notmanytask.Base.{
  ℕ, zero, suc, ◌-◌, Option, none, some, List, get_elem?, set, length, ltb, if◌then◌else◌,
}
use notmanytask.Base.Errors.{Result, ok, panic}

module _ {A : Type 0} where
  -- Both elements are read before one is written. An index out of range panics.
  abbrev swap_values : ℕ → ℕ → Option A → Option A → List A → Result (List A)
  swap_values i j (some a) (some b) xs = ok (set (set xs i b) j a)
  swap_values i j (some a) none xs = panic
  swap_values i j none b xs = panic

  abbrev pub swap : ℕ → ℕ → List A → Result (List A)
  swap i j xs = swap_values i j (get_elem? xs i) (get_elem? xs j) xs

  abbrev pub after_swap :
      Result (List A) → (List A → Option (Result (List A))) → Option (Result (List A))
  after_swap (ok xs) next = next xs
  after_swap e next = some e

  -- The loop while `i < j`, with fuel.
  unfoldable pub reverse_loop : ℕ → ℕ → ℕ → List A → Option (Result (List A))
  reverse_loop zero i j xs = none
  reverse_loop (suc fuel) i j xs =
      let rest = after_swap (swap i j xs) (λ ys. reverse_loop fuel (suc i) (j - 1) ys) in
      if ltb i j then rest else some (ok xs)

  -- `len(slice)-1` is -1 for an empty slice in the source and 0 here: either way `i < j` fails.
  unfoldable pub reverse_slice : List A → Option (Result (List A))
  unfolding reverse_loop
  reverse_slice xs = reverse_loop (suc (length xs)) 0 (length xs - 1) xs

-- The loop of ReverseSlice has the fuel that it needs, so `none` does not occur.
abbrev pub or_panic : {A : Type 0} → Option (Result A) → Result A
or_panic none = panic
or_panic (some r) = r

unfoldable pub reversed : {A : Type 0} → List A → Result (List A)
unfolding reverse_slice
reversed xs = or_panic (reverse_slice xs)
