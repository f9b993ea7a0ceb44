-- ===== src/Generic/Reverse.antt =====
-- The swaps end and reverse the slice.
use mathlib.Core.List.{reverse, reverse-cons, reverse-append, append_assoc, append-nil}
use notmanytask.Base.{
  ℕ, zero, suc, ◌+◌, ◌-◌, ◌≡◌, ◌<◌, refl, ap, sym, ◌∙◌, inl, inr, some, List, [], ◌∷◌, ◌++◌,
  get_elem?, set, length, ltb, arith, true, false, ◌⊎◌,
}
use notmanytask.Base.Errors.{ok}
use notmanytask.Generic.{swap, reverse_loop, reverse_slice, or_panic, reversed}

module _ {A : Type 0} where
  length-app : (xs ys : List A) → length (xs ++ ys) ≡ length xs + length ys
  length-app [] ys = omega arith
  length-app (x ∷ xs) ys = omega (arith, length-app xs ys)

  pub get_elem?-middle :
      (pre : List A) (x : A) (post : List A) → get_elem? (pre ++ (x ∷ post)) (length pre) ≡ some x
  get_elem?-middle [] x post = refl
  get_elem?-middle (p ∷ pre) x post = get_elem?-middle pre x post

  set-middle :
      (pre : List A) (x y : A) (post : List A)
      → set (pre ++ (x ∷ post)) (length pre) y ≡ pre ++ (y ∷ post)
  set-middle [] x y post = refl
  set-middle (p ∷ pre) x y post = ap (λ zs. p ∷ zs) (set-middle pre x y post)

  -- `x ∷ (m ++ (y ∷ post))` behind `pre`, seen as what stands before and behind `y`.
  before_last :
      (pre : List A) (x : A) (m : List A) (y : A) (post : List A)
      → pre ++ (x ∷ (m ++ (y ∷ post))) ≡ (pre ++ (x ∷ m)) ++ (y ∷ post)
  before_last pre x m y post = sym (append_assoc pre (x ∷ m) (y ∷ post))

  swap-ends :
      (pre : List A) (x : A) (m : List A) (y : A) (post : List A)
      → swap (length pre) (length (pre ++ (x ∷ m))) (pre ++ (x ∷ (m ++ (y ∷ post))))
        ≡ ok (pre ++ (y ∷ (m ++ (x ∷ post))))
  swap-ends pre x m y post =
      let j = length (pre ++ (x ∷ m)) in
      let same : j ≡ length (pre ++ (y ∷ m)) =
        omega (arith, length-app pre (x ∷ m), length-app pre (y ∷ m)) in
      let first : get_elem? (pre ++ (x ∷ (m ++ (y ∷ post)))) (length pre) ≡ some x =
        get_elem?-middle pre x (m ++ (y ∷ post)) in
      let second : get_elem? (pre ++ (x ∷ (m ++ (y ∷ post)))) j ≡ some y =
        ap (λ l. get_elem? l j) (before_last pre x m y post)
        ∙ get_elem?-middle (pre ++ (x ∷ m)) y post in
      let put : set (pre ++ (y ∷ (m ++ (y ∷ post)))) j x ≡ pre ++ (y ∷ (m ++ (x ∷ post))) =
        ap (λ l. set l j x) (before_last pre y m y post)
        ∙ ap (λ k. set ((pre ++ (y ∷ m)) ++ (y ∷ post)) k x) same
        ∙ set-middle (pre ++ (y ∷ m)) y x post
        ∙ sym (before_last pre y m x post) in
      rw (first, second, set-middle pre x y (m ++ (y ∷ post)), put) refl

  reverse_loop-step :
      (fuel i j : ℕ) (xs ys : List A)
      → i < j
      → swap i j xs ≡ ok ys
      → reverse_loop (suc fuel) i j xs ≡ reverse_loop fuel (suc i) (j - 1) ys
  unfolding reverse_loop
  reverse_loop-step fuel i j xs ys h e = let on : ltb i j ≡ true = ground arith in rw (on, e) refl

  last_of : (m : List A) → (m ≡ []) ⊎ ((l : List A) × (y : A) × (m ≡ l ++ (y ∷ [])))
  last_of [] = inl refl
  last_of (x ∷ m) = elim (last_of m) [
    | inl e ↦ inr ([], x, ap (λ t. x ∷ t) e)
    | inr (l, y, e) ↦ inr (x ∷ l, y, ap (λ t. x ∷ t) e)
  ]

  reverse-ends :
      (x : A) (l : List A) (y : A) → reverse (x ∷ (l ++ (y ∷ []))) ≡ y ∷ (reverse l ++ (x ∷ []))
  reverse-ends x l y =
      reverse-cons x (l ++ (y ∷ [])) ∙ ap (λ t. t ++ (x ∷ [])) (reverse-append l (y ∷ []))

  -- The first and the last element are swapped, and then the part between them is reversed.
  reverse_loop-ends :
      (fuel : ℕ) (pre : List A) (x : A) (l : List A) (y : A) (post : List A)
      → reverse_loop fuel
          (length (pre ++ (y ∷ [])))
          (length (pre ++ (y ∷ [])) + length l - 1)
          ((pre ++ (y ∷ [])) ++ (l ++ (x ∷ post)))
        ≡ some (ok ((pre ++ (y ∷ [])) ++ (reverse l ++ (x ∷ post))))
      → reverse_loop
          (suc fuel)
          (length pre)
          (length pre + length (x ∷ (l ++ (y ∷ []))) - 1)
          (pre ++ ((x ∷ (l ++ (y ∷ []))) ++ post))
        ≡ some (ok (pre ++ (reverse (x ∷ (l ++ (y ∷ []))) ++ post)))
  reverse_loop-ends fuel pre x l y post ih =
      let j : length pre + length (x ∷ (l ++ (y ∷ []))) - 1 ≡ length (pre ++ (x ∷ l)) =
        omega (arith, length-app pre (x ∷ l), length-app l (y ∷ [])) in
      let i' : suc (length pre) ≡ length (pre ++ (y ∷ [])) =
        omega (arith, length-app pre (y ∷ [])) in
      let j' : length (pre ++ (x ∷ l)) - 1 ≡ length (pre ++ (y ∷ [])) + length l - 1 =
        omega (arith, length-app pre (x ∷ l), length-app pre (y ∷ [])) in
      let xs : pre ++ ((x ∷ (l ++ (y ∷ []))) ++ post) ≡ pre ++ (x ∷ (l ++ (y ∷ post))) =
        ap (λ t. pre ++ (x ∷ t)) (append_assoc l (y ∷ []) post) in
      let ys : pre ++ (y ∷ (l ++ (x ∷ post))) ≡ (pre ++ (y ∷ [])) ++ (l ++ (x ∷ post)) =
        sym (append_assoc pre (y ∷ []) (l ++ (x ∷ post))) in
      let out : (pre ++ (y ∷ [])) ++ (reverse l ++ (x ∷ post))
          ≡ pre ++ (reverse (x ∷ (l ++ (y ∷ []))) ++ post) =
        append_assoc pre (y ∷ []) (reverse l ++ (x ∷ post))
        ∙ ap (λ t. pre ++ (y ∷ t)) (sym (append_assoc (reverse l) (x ∷ []) post))
        ∙ ap (λ t. pre ++ (t ++ post)) (sym (reverse-ends x l y)) in
      let low : length pre < length (pre ++ (x ∷ l)) = omega (arith, length-app pre (x ∷ l)) in
      ap (λ k. reverse_loop (suc fuel) (length pre) k (pre ++ ((x ∷ (l ++ (y ∷ []))) ++ post))) j
      ∙ ap (λ t. reverse_loop (suc fuel) (length pre) (length (pre ++ (x ∷ l))) t) xs
      ∙ reverse_loop-step fuel (length pre) (length (pre ++ (x ∷ l))) _ _ low
          (swap-ends pre x l y post)
      ∙ ap (λ k. reverse_loop fuel k (length (pre ++ (x ∷ l)) - 1) (pre ++ (y ∷ (l ++ (x ∷ post)))))
          i'
      ∙ ap (λ k. reverse_loop fuel (length (pre ++ (y ∷ []))) k (pre ++ (y ∷ (l ++ (x ∷ post))))) j'
      ∙ ap
          (λ t.
            reverse_loop fuel (length (pre ++ (y ∷ []))) (length (pre ++ (y ∷ [])) + length l - 1)
              t)
          ys
      ∙ ih
      ∙ ap (λ t. some (ok t)) out

  -- The middle part, which is left to reverse, is shorter than the fuel.
  reverse_loop-middle :
      (fuel : ℕ) (pre m post : List A)
      → length m < fuel
      → reverse_loop fuel (length pre) (length pre + length m - 1) (pre ++ (m ++ post))
        ≡ some (ok (pre ++ (reverse m ++ post)))
  unfolding reverse_loop
  reverse_loop-middle zero pre m post h = absurd (omega arith)
  reverse_loop-middle (suc fuel) pre [] post h =
      let stop : ltb (length pre) (length pre + 0 - 1) ≡ false = ground arith in rw stop refl
  reverse_loop-middle (suc fuel) pre (x ∷ m) post h = elim (last_of m) [
    | inl e ↦
        let stop : ltb (length pre) (length pre + 1 - 1) ≡ false = ground arith in rw (e, stop) refl
    | inr (l, y, e) ↦
        let shorter : length l < fuel = omega (arith, ap length e, length-app l (y ∷ [])) in
        rw e (
          reverse_loop-ends fuel pre x l y post
            (reverse_loop-middle fuel (pre ++ (y ∷ [])) l (x ∷ post) shorter))
  ]

  -- ReverseSlice ends without a panic, and leaves the elements in the reverse order.
  pub reverse_slice-reverse : (xs : List A) → reverse_slice xs ≡ some (ok (reverse xs))
  unfolding reverse_slice
  reverse_slice-reverse xs =
      let end : length xs - 1 ≡ 0 + length xs - 1 = omega arith in
      ap (λ k. reverse_loop (suc (length xs)) 0 k xs) end
      ∙ ap (λ t. reverse_loop (suc (length xs)) 0 (0 + length xs - 1) t) (sym (append-nil xs))
      ∙ reverse_loop-middle (suc (length xs)) [] xs [] (omega arith)
      ∙ ap (λ t. some (ok t)) (append-nil (reverse xs))

pub reversed-ok : {A : Type 0} (xs : List A) → reversed xs ≡ ok (reverse xs)
unfolding reversed
reversed-ok xs = ap or_panic (reverse_slice-reverse xs)
