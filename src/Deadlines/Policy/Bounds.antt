-- ===== src/Deadlines/Policy/Bounds.antt =====
-- How many points the exponential policy of internal/deadlines/scoring.go leaves.
use notmanytask.Base.{
  ℕ, ◌^◌, ◌<◌, ◌≤◌, ◌≤ℤ◌, ◌≡◌, refl, inl, inr, true, false, leb, ◌+◌, ◌-◌, ◌∙◌, pos, pos_part,
  neg_part, ◌-ℤ◌, Bool-cases, arith,
}
use notmanytask.Base.Float.{Float}
use notmanytask.Base.Time.{Time, before, time_sub, seconds, saturate}
use notmanytask.Deadlines.Policy.{exponential_score}

module _ {W : Type 0} ⦃f : Float W⦄ where
  -- A float that is no NaN, and neither below the one nor above the other.
  abbrev pub Within : W → W → W → Type 0
  Within low high x = (f.eq x x ≡ true) × (f.lt x low ≡ false) × (f.lt high x ≡ false)

  -- From 0 to 1.
  abbrev pub IsShare : W → Type 0
  IsShare = Within (f.of_int (pos 0)) (f.of_int (pos 1))

-- What IEEE 754 and package math have of floats, and Go of the conversion to int: up to 2^53 all
-- integers are floats.
pub record ShareLaws (W : Type 0) ⦃f : Float W⦄ : Type 0 where
  pub quotient :
      (a b : ℕ)
      → a < 2 ^ 63
      → 0 < b
      → b < 2 ^ 63
      → let x = f.div (seconds (pos a)) (seconds (pos b)) in
        (f.eq x x ≡ true) × (f.lt x (f.of_int (pos 0)) ≡ false)
  pub exp_share :
      (x : W)
      → f.eq x x ≡ true
      → f.lt x (f.of_int (pos 0)) ≡ false
      → IsShare (f.div (f.of_int (pos 1)) (f.exp x))
  pub max_share :
      (x y : W) → IsShare x → IsShare y → IsShare (f.max x y) × (f.lt (f.max x y) x ≡ false)
  pub mul_share :
      (x : W) (n : ℕ)
      → IsShare x
      → n < 2 ^ 53
      → Within (f.of_int (pos 0)) (f.of_int (pos n)) (f.mul x (f.of_int (pos n)))
  pub mul_mono :
      (x y : W) (n : ℕ)
      → IsShare x
      → IsShare y
      → f.lt y x ≡ false
      → n < 2 ^ 53
      → f.lt (f.mul y (f.of_int (pos n))) (f.mul x (f.of_int (pos n))) ≡ false
  pub to_int_within :
      (x : W) (n : ℕ)
      → n < 2 ^ 53
      → Within (f.of_int (pos 0)) (f.of_int (pos n)) x
      → (m : ℕ) × (f.to_int x ≡ pos m) × (m ≤ n)
  pub to_int_mono :
      (x y : W) (n : ℕ)
      → n < 2 ^ 53
      → Within (f.of_int (pos 0)) (f.of_int (pos n)) x
      → Within (f.of_int (pos 0)) (f.of_int (pos n)) y
      → f.lt y x ≡ false
      → f.to_int x ≤ℤ f.to_int y

-- A submit that is not before the deadline comes some time after it, or at once.
saturate-pos : (n : ℕ) → (m : ℕ) × (saturate (pos n) ≡ pos m) × (m < 2 ^ 63)
saturate-pos n = elim (Bool-cases (leb (2 ^ 63) n)) [
  | inl e ↦ (2 ^ 63 - 1, rw e refl, omega arith)
  | inr e ↦ (n, rw e refl, ground arith)
]

not_before-time_sub :
    (submit deadline : Time)
    → before submit deadline ≡ false
    → (m : ℕ) × (time_sub submit deadline ≡ pos m) × (m < 2 ^ 63)
unfolding time_sub
not_before-time_sub submit deadline e =
    let a = pos_part submit + neg_part deadline in
    let b = pos_part deadline + neg_part submit in
    let d : submit -ℤ deadline ≡ pos (a - b) = unfold ◌-ℤ◌ in ground arith in
    rw d (saturate-pos (a - b))

module _ {W : Type 0} ⦃f : Float W⦄ (laws : ShareLaws W) where
  late-IsShare :
      (after n : ℕ) (threshold : W) (submit deadline : Time)
      → 0 < after
      → after < 2 ^ 63
      → IsShare threshold
      → before submit deadline ≡ false
      → (x : W) × IsShare x
        × (f.lt x threshold ≡ false)
        × (exponential_score (pos after) threshold (pos n) deadline submit
            ≡ f.to_int (f.mul x (f.of_int (pos n))))
  unfolding exponential_score
  late-IsShare after n threshold submit deadline some_time short share late =
      let (m, e, small) = not_before-time_sub submit deadline late in
      let x = f.div (seconds (pos m)) (seconds (pos after)) in
      let (number, positive) = laws.quotient m after small some_time short in
      let falling = laws.exp_share x number positive in
      let (both, above) =
        laws.max_share threshold (f.div (f.of_int (pos 1)) (f.exp x)) share falling in
      (f.max threshold (f.div (f.of_int (pos 1)) (f.exp x)), both, above, rw (late, e) refl)

  -- With a threshold from 0 to 1, a time that is positive, and a task of less than 2^53 points, whenever
  -- the submit comes: the exponential policy leaves no more than the task's points, no less than 0, and
  -- no less than the threshold's share of them, as far as floats obey IEEE 754.
  pub exponential_score-bounds :
      (after n : ℕ) (threshold : W) (submit deadline : Time)
      → 0 < after
      → after < 2 ^ 63
      → n < 2 ^ 53
      → IsShare threshold
      → (m : ℕ) × (exponential_score (pos after) threshold (pos n) deadline submit ≡ pos m)
        × (m ≤ n)
        × (f.to_int (f.mul threshold (f.of_int (pos n))) ≤ℤ pos m)
  exponential_score-bounds after n threshold submit deadline some_time short exact share =
      let low = laws.mul_share threshold n share exact in
      elim (Bool-cases (before submit deadline)) [
        | inl early ↦
            let (k, e, le) = laws.to_int_within (f.mul threshold (f.of_int (pos n))) n exact low in
            (n, unfold exponential_score in rw early refl, omega arith, rw e (omega arith))
        | inr late ↦
            let (x, within, above, e) =
              late-IsShare after n threshold submit deadline some_time short share late in
            let high = laws.mul_share x n within exact in
            let (m, e', le) = laws.to_int_within (f.mul x (f.of_int (pos n))) n exact high in
            let mono =
              laws.to_int_mono (f.mul threshold (f.of_int (pos n))) (f.mul x (f.of_int (pos n))) n
                exact low high (laws.mul_mono threshold x n share within above exact) in
            (m, e ∙ e', le, rw e' at mono)
      ]
