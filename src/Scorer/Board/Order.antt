-- ===== src/Scorer/Board/Order.antt =====
-- The comparison that the standings are sorted by.
use Prim.Native.Nat.{Ordering, compare as compare_ℕ}
use Prim.Native.Char.{code}
use Prim.Native.String.compare
use Prim.Native.String.{[], ◌∷◌, compare, then as chain}
use text.Mathlib.Text.{is_lt}
use notmanytask.Base.{ℕ, String, ◌≡◌, refl, inl, inr, true, false, Bool-cases, arith}
use notmanytask.Base.Float.{Float}
use notmanytask.Scorer.Types.{UserScores}
use notmanytask.Scorer.Board.{full_name, standings_less}

then_lt_trans :
    (a b c : ℕ) (o p q : Ordering)
    → (is_lt o ≡ true → is_lt p ≡ true → is_lt q ≡ true)
    → is_lt (chain (compare_ℕ a b) o) ≡ true
    → is_lt (chain (compare_ℕ b c) p) ≡ true
    → is_lt (chain (compare_ℕ a c) q) ≡ true
then_lt_trans a b c o p q h e e' = ground arith

compare_trans :
    (s t u : String)
    → is_lt (compare s t) ≡ true
    → is_lt (compare t u) ≡ true
    → is_lt (compare s u) ≡ true
compare_trans [] [] u e e' = e'
compare_trans [] (d ∷ t) [] e e' = absurd (let h = rw (compare.cons-nil d t) at e' in cc)
compare_trans [] (d ∷ t) (x ∷ u) e e' = rw (compare.nil-cons x u) refl
compare_trans (c ∷ s) [] u e e' = absurd (let h = rw (compare.cons-nil c s) at e in cc)
compare_trans (c ∷ s) (d ∷ t) [] e e' = absurd (let h = rw (compare.cons-nil d t) at e' in cc)
compare_trans (c ∷ s) (d ∷ t) (x ∷ u) e e' = rw (compare.cons-cons c x s u) (
    then_lt_trans (code c) (code d) (code x) (compare s t) (compare t u) (compare s u)
      (compare_trans s t u) (rw (compare.cons-cons c d s t) at e)
      (rw (compare.cons-cons d x t u) at e'))

compare_irrefl : (s : String) → is_lt (compare s s) ≡ false
compare_irrefl [] = refl
compare_irrefl (c ∷ s) = rw (compare.cons-cons c c s s) (let h = compare_irrefl s in ground arith)

-- What holds of floats that are no NaN: `==` is an equivalence, and `<` a strict order that respects it.
pub record OrderLaws {W : Type 0} (f : Float W) : Type 0 where
  pub eq_refl : (x : W) → f.eq x x ≡ true
  pub eq_sym : (x y : W) → f.eq x y ≡ true → f.eq y x ≡ true
  pub eq_trans : (x y z : W) → f.eq x y ≡ true → f.eq y z ≡ true → f.eq x z ≡ true
  pub lt_irrefl : (x : W) → f.lt x x ≡ false
  pub lt_trans : (x y z : W) → f.lt x y ≡ true → f.lt y z ≡ true → f.lt x z ≡ true
  pub lt_eq : (x y z : W) → f.lt x y ≡ true → f.eq y z ≡ true → f.lt x z ≡ true
  pub eq_lt : (x y z : W) → f.eq x y ≡ true → f.lt y z ≡ true → f.lt x z ≡ true

module _ {W : Type 0} ⦃f : Float W⦄ (laws : OrderLaws f) where
  standings_less_irrefl : (a : UserScores W) → standings_less a a ≡ false
  unfolding standings_less
  standings_less_irrefl a = rw (laws.eq_refl a.final_mark) (compare_irrefl (full_name a.user))

  standings_less_chain :
      (a b c : UserScores W)
      → standings_less a b ≡ true
      → standings_less b c ≡ true
      → standings_less a c ≡ true
  unfolding standings_less
  standings_less_chain a b c e e' = ground (
    arith,
    laws.eq_sym a.final_mark b.final_mark,
    laws.eq_sym a.final_mark c.final_mark,
    laws.eq_sym b.final_mark c.final_mark,
    laws.eq_trans a.final_mark b.final_mark c.final_mark,
    laws.eq_trans b.final_mark a.final_mark c.final_mark,
    laws.eq_trans a.final_mark c.final_mark b.final_mark,
    laws.lt_trans c.final_mark b.final_mark a.final_mark,
    laws.lt_eq c.final_mark b.final_mark a.final_mark,
    laws.eq_lt c.final_mark b.final_mark a.final_mark,
    laws.lt_eq b.final_mark a.final_mark c.final_mark,
    laws.lt_eq c.final_mark a.final_mark c.final_mark,
    laws.lt_irrefl c.final_mark,
    laws.lt_irrefl b.final_mark,
    compare_trans (full_name a.user) (full_name b.user) (full_name c.user),
  )

  -- On final marks that are no NaN, the comparison that sort.Slice is given for the standings is a
  -- strict order: if a row stands before a second one, and that one before a third, then the first
  -- stands before the third, and the third does not stand before the first.
  pub standings_less_trans :
      (a b c : UserScores W)
      → standings_less a b ≡ true
      → standings_less b c ≡ true
      → (standings_less a c ≡ true) × (standings_less c a ≡ false)
  standings_less_trans a b c e e' =
      let first = standings_less_chain a b c e e' in
      (
        first,
        elim (Bool-cases (standings_less c a)) [
          | inl back ↦
              let loop = standings_less_chain a c a first back in
              let none_before = standings_less_irrefl a in absurd (cc)
          | inr never_back ↦ never_back
        ],
      )
