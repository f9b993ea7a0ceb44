-- ===== src/Tests/Policies.antt =====
-- The exponential policy over integers.
use notmanytask.Base.{
  ℕ, zero, suc, ◌*◌, ◌/◌, ◌≤◌, ◌≤ℤ◌, ◌+ℤ◌, ◌≡◌, refl, true, false, ℤ, pos, negsuc, pos_part, ltb_ℤ,
  eqb_ℤ, arith,
}
use notmanytask.Base.Time.{seconds}
use notmanytask.Deadlines.Policy.{exponential_score}
use notmanytask.Deadlines.Policy.Bounds.{IsShare, ShareLaws, exponential_score-bounds}
use notmanytask.Deadlines.Policy.Falls.{FallingLaws}
use notmanytask.Tests.Samples.{int_float}

-- An integer from low to high.
pos_of : (x : ℤ) → ltb_ℤ x (pos 0) ≡ false → (m : ℕ) × (x ≡ pos m)
pos_of (pos m) e = (m, refl)
pos_of (negsuc m) e = absurd (ground arith)

shares : (x : ℤ) → IsShare x → (m : ℕ) × (x ≡ pos m) × (m ≤ 1)
shares (pos m) h = (m, refl, ground arith)
shares (negsuc m) h = absurd (ground arith)

quotient-number :
    (a b : ℕ)
    → let x = int_float.div (seconds (pos a)) (seconds (pos b)) in
      (eqb_ℤ x x ≡ true) × (ltb_ℤ x (pos 0) ≡ false)
quotient-number a b = (ground arith, ground arith)

inverse-le : (k : ℕ) → 1 / suc k ≤ 1
inverse-le k = grind arith

IsShare-exp : (x : ℤ) → ltb_ℤ x (pos 0) ≡ false → IsShare (int_float.div (pos 1) (int_float.exp x))
unfolding ◌+ℤ◌
IsShare-exp (pos m) e = (ground arith, ground arith, let h = inverse-le m in ground arith)
IsShare-exp (negsuc m) e = absurd (ground arith)

IsShare-max :
    (x y : ℤ)
    → IsShare x
    → IsShare y
    → IsShare (int_float.max x y) × (ltb_ℤ (int_float.max x y) x ≡ false)
IsShare-max x y hx hy = ((ground arith, ground arith, ground arith), ground arith)

mul_mono_le : (a b n : ℕ) → a ≤ b → a * n ≤ b * n
mul_mono_le a b n h = grind arith

share-mul : (m n : ℕ) → m ≤ 1 → m * n ≤ n
share-mul m n h = grind arith

int_shares : ShareLaws ℤ
int_shares = record {
  quotient = λ a b small some_time short. quotient-number a b;
  exp_share = λ x number positive. IsShare-exp x positive;
  max_share = λ x y hx hy. IsShare-max x y hx hy;
  mul_share = λ x n h exact.
      let low = share-mul (pos_part x) n (ground arith) in
      (ground arith, ground arith, ground arith);
  mul_mono = λ x y n hx hy above exact.
      let le = mul_mono_le (pos_part x) (pos_part y) n (ground arith) in ground arith;
  to_int_within = λ x n exact h. let (m, e) = pos_of x h.1 in (m, e, ground arith);
  to_int_mono = λ x y n exact hx hy above. ground arith;
}

policy_bounds_example :
    (m : ℕ) × (exponential_score (pos 5) (pos 0) (pos 100) (pos 0) (pos 7) ≡ pos m)
    × (m ≤ 100)
    × (int_float.to_int (int_float.mul (pos 0) (int_float.of_int (pos 100))) ≤ℤ pos m)
policy_bounds_example =
    exponential_score-bounds int_shares 5 100 (pos 0) (pos 7) (pos 0) (omega arith) (omega arith)
      (omega arith) (refl, refl, refl)

-- Of two divisors or dividends.
seconds-pos : (a : ℕ) → seconds (pos a) ≡ pos (a / 1000000000)
unfolding seconds ◌+ℤ◌
seconds-pos a = ground arith

div_mono : (a b d : ℕ) → a ≤ b → a / d ≤ b / d
div_mono a b d h = grind arith

int-quotient_mono :
    (a b d : ℕ)
    → a ≤ b
    → ltb_ℤ
        (int_float.div (seconds (pos b)) (seconds (pos d)))
        (int_float.div (seconds (pos a)) (seconds (pos d)))
      ≡ false
int-quotient_mono a b d h =
    let le = div_mono (a / 1000000000) (b / 1000000000) (d / 1000000000) (omega arith) in
    rw (seconds-pos a, seconds-pos b, seconds-pos d) (ground arith)

inverse-zero : (k : ℕ) → 1 / suc (suc k) ≡ 0
inverse-zero k = grind arith

inverse_falls : (a b : ℕ) → a ≤ b → 1 / suc b ≤ 1 / suc a
inverse_falls zero b h = inverse-le b
inverse_falls (suc a) zero h = absurd (omega arith)
inverse_falls (suc a) (suc b) h = let z = inverse-zero b in omega arith

int-exp_falls :
    (x y : ℤ)
    → ltb_ℤ x (pos 0) ≡ false
    → ltb_ℤ y x ≡ false
    → ltb_ℤ (int_float.div (pos 1) (int_float.exp x)) (int_float.div (pos 1) (int_float.exp y))
      ≡ false
unfolding ◌+ℤ◌
int-exp_falls (pos a) (pos b) positive less =
    let h = inverse_falls a b (ground arith) in ground arith
int-exp_falls (negsuc a) y positive less = absurd (ground arith)
int-exp_falls (pos a) (negsuc b) positive less = absurd (ground arith)

pub int_falls : FallingLaws ℤ
int_falls = record {
  shares = int_shares;
  quotient_mono = λ a b d h small some_time short. int-quotient_mono a b d h;
  exp_falls = int-exp_falls;
  max_mono = λ t x y ht hx hy less. ground arith;
}
