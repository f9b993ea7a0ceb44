-- ===== src/Deadlines/Policy/Falls.antt =====
-- The exponential policy of internal/deadlines/scoring.go at two times.
use notmanytask.Base.{
  ℕ, ◌^◌, ◌<◌, ◌≤◌, ◌≤ℤ◌, ◌≡◌, refl, inl, inr, true, false, leb, ◌+◌, ◌-◌, pos, pos_part, neg_part,
  ◌-ℤ◌, Bool-cases, arith,
}
use notmanytask.Base.Float.{Float}
use notmanytask.Base.Time.{Time, before, time_sub, seconds, saturate}
use notmanytask.Deadlines.Policy.{exponential_score}
use notmanytask.Deadlines.Policy.Bounds.{IsShare, ShareLaws, exponential_score-bounds}

-- What keeps an order: the rounding of a quotient by IEEE 754, math.Max, and math.Exp as far as it is
-- used, which is taken to be monotone like the function that it approximates.
pub record FallingLaws (W : Type 0) ⦃f : Float W⦄ : Type 0 where
  pub shares : ShareLaws W
  pub quotient_mono :
      (a b d : ℕ)
      → a ≤ b
      → b < 2 ^ 63
      → 0 < d
      → d < 2 ^ 63
      → f.lt (f.div (seconds (pos b)) (seconds (pos d))) (f.div (seconds (pos a)) (seconds (pos d)))
        ≡ false
  pub exp_falls :
      (x y : W)
      → f.lt x (f.of_int (pos 0)) ≡ false
      → f.lt y x ≡ false
      → f.lt (f.div (f.of_int (pos 1)) (f.exp x)) (f.div (f.of_int (pos 1)) (f.exp y)) ≡ false
  pub max_mono :
      (t x y : W)
      → IsShare t
      → IsShare x
      → IsShare y
      → f.lt y x ≡ false
      → f.lt (f.max t y) (f.max t x) ≡ false

saturate_mono :
    (i j : ℕ)
    → i ≤ j
    → (k l : ℕ) × (saturate (pos i) ≡ pos k) × (saturate (pos j) ≡ pos l) × (k ≤ l) × (l < 2 ^ 63)
saturate_mono i j h = elim (Bool-cases (leb (2 ^ 63) i)) [
  | inl e ↦
      let e' : leb (2 ^ 63) j ≡ true = ground arith in
      (2 ^ 63 - 1, 2 ^ 63 - 1, rw e refl, rw e' refl, omega arith, omega arith)
  | inr e ↦ elim (Bool-cases (leb (2 ^ 63) j)) [
    | inl e' ↦ (i, 2 ^ 63 - 1, rw e refl, rw e' refl, ground arith, omega arith)
    | inr e' ↦ (i, j, rw e refl, rw e' refl, h, ground arith)
  ]
]

time_sub_mono :
    (u v deadline : Time)
    → before u deadline ≡ false
    → u ≤ℤ v
    → (k l : ℕ) × (time_sub u deadline ≡ pos k)
      × (time_sub v deadline ≡ pos l)
      × (k ≤ l)
      × (l < 2 ^ 63)
unfolding time_sub
time_sub_mono u v deadline late h =
    let i = pos_part u + neg_part deadline - (pos_part deadline + neg_part u) in
    let j = pos_part v + neg_part deadline - (pos_part deadline + neg_part v) in
    let d : u -ℤ deadline ≡ pos i = unfold ◌-ℤ◌ in ground arith in
    let e : v -ℤ deadline ≡ pos j = unfold ◌-ℤ◌ in ground arith in
    rw (d, e) (saturate_mono i j (ground arith))

module _ {W : Type 0} ⦃f : Float W⦄ (laws : FallingLaws W) (after n : ℕ) (threshold : W)
    (deadline : Time) (some_time : 0 < after) (short : after < 2 ^ 63) (exact : n < 2 ^ 53)
    (share : IsShare threshold) where
  late_falls :
      (u v : Time)
      → before u deadline ≡ false
      → before v deadline ≡ false
      → u ≤ℤ v
      → exponential_score (pos after) threshold (pos n) deadline v
        ≤ℤ exponential_score (pos after) threshold (pos n) deadline u
  unfolding exponential_score
  late_falls u v late later h =
      let s = laws.shares in
      let (k, l, e, e', le, small) = time_sub_mono u v deadline late h in
      let x = f.div (seconds (pos k)) (seconds (pos after)) in
      let y = f.div (seconds (pos l)) (seconds (pos after)) in
      let (nx, px) = s.quotient k after (omega arith) some_time short in
      let (ny, py) = s.quotient l after small some_time short in
      let less = laws.exp_falls x y px (laws.quotient_mono k l after le small some_time short) in
      let high = f.div (f.of_int (pos 1)) (f.exp x) in
      let low = f.div (f.of_int (pos 1)) (f.exp y) in
      let wx = s.exp_share x nx px in
      let wy = s.exp_share y ny py in
      let mx = (s.max_share threshold high share wx).0 in
      let my = (s.max_share threshold low share wy).0 in
      let order =
        s.mul_mono (f.max threshold low) (f.max threshold high) n my mx
          (laws.max_mono threshold low high share wy wx less) exact in
      rw (late, later, e, e')
        (s.to_int_mono (f.mul (f.max threshold low) (f.of_int (pos n)))
          (f.mul (f.max threshold high) (f.of_int (pos n))) n exact (s.mul_share _ n my exact)
          (s.mul_share _ n mx exact) order)

  early-max :
      (u : Time)
      → before u deadline ≡ true
      → exponential_score (pos after) threshold (pos n) deadline u ≡ pos n
  unfolding exponential_score
  early-max u early = rw early refl

  -- A later submit leaves no more points, and no less than 0.
  pub exponential_score_falls :
      (u v : Time)
      → u ≤ℤ v
      → (exponential_score (pos after) threshold (pos n) deadline v
          ≤ℤ exponential_score (pos after) threshold (pos n) deadline u)
        × (pos 0 ≤ℤ exponential_score (pos after) threshold (pos n) deadline v)
  exponential_score_falls u v h =
      let (m, e, le, _) =
        exponential_score-bounds laws.shares after n threshold v deadline some_time short exact
          share in
      (
        elim (Bool-cases (before u deadline)) [
          | inl early ↦ rw (early-max u early, e) (omega arith)
          | inr late ↦ late_falls u v late (ground arith) h
        ],
        rw e (omega arith),
      )
