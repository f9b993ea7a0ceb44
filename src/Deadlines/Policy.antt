-- ===== src/Deadlines/Policy.antt =====
-- internal/deadlines/scoring.go: how a submit loses points after its deadline.
pub mod Bounds
pub mod Falls
use notmanytask.Base.{ℤ, pos, if◌then◌else◌}
use notmanytask.Base.Float.{Float}
use notmanytask.Base.Time.{Time, Duration, before, time_sub, time_add, seconds}

-- The two implementations of the interface ScoringPolicy.
pub data ScoringPolicy (W : Type 0) : Type 0 where
  exponential : Duration → W → ScoringPolicy W
  linear : Duration → W → ScoringPolicy W

module _ {W : Type 0} ⦃f : Float W⦄ where
  -- The float 1.0 of the source.
  abbrev one : W
  one = f.of_int (pos 1)

  unfoldable pub exponential_score : Duration → W → ℤ → Time → Time → ℤ
  unfolding seconds time_sub
  exponential_score multiplier threshold max_score deadline submit =
      if before submit deadline
      then max_score
      else let delta = seconds (time_sub submit deadline) in
        let e = f.div delta (seconds multiplier) in
        f.to_int (f.mul (f.max threshold (f.div one (f.exp e))) (f.of_int max_score))

  unfoldable pub linear_score : Duration → W → ℤ → Time → Time → ℤ
  unfolding seconds time_sub time_add
  linear_score after multiplier max_score deadline submit =
      if before submit deadline
      then max_score
      else let delta = f.div (seconds (time_sub submit deadline)) (seconds after) in
        let falling = f.add (f.sub one delta) (f.mul multiplier delta) in
        let mult = if before submit (time_add deadline after) then falling else multiplier in
        f.to_int (f.mul (f.of_int max_score) mult)

  -- policy.Score(maxScore, deadline, submitTime)
  unfoldable pub policy_score : ScoringPolicy W → ℤ → Time → Time → ℤ
  unfolding exponential_score linear_score
  policy_score (exponential multiplier threshold) = exponential_score multiplier threshold
  policy_score (linear after multiplier) = linear_score after multiplier
