-- ===== src/Base/Time.antt =====
-- Go's package `time`, as far as it is used: instants and durations in nanoseconds.
use Prim.Native.Nat.{ℕ, ◌^◌, ◌-◌}
use mathlib.Core.Bool.{Bool}
use notmanytask.Base.Tests.{leb, if◌then◌else◌}
use notmanytask.Base.Int.{ℤ, pos, negsuc, ltb_ℤ, ◌+ℤ◌, ◌-ℤ◌, quot, rem}
use notmanytask.Base.Float.{Float}

abbrev pub Time : Type 0
Time = ℤ

abbrev pub Duration : Type 0
Duration = ℤ

abbrev pub second : ℕ
second = 1000000000

-- t.Before(u), t.After(u)
abbrev pub before : Time → Time → Bool
before t u = ltb_ℤ t u

abbrev pub after : Time → Time → Bool
after t u = ltb_ℤ u t

-- t.Sub(u) stops at the ends of a Duration's range.
abbrev pub saturate : ℤ → Duration
saturate (pos n) = if leb (2 ^ 63) n then pos (2 ^ 63 - 1) else pos n
saturate (negsuc n) = if leb (2 ^ 63) n then negsuc (2 ^ 63 - 1) else negsuc n

unfoldable pub time_sub : Time → Time → Duration
unfolding ◌-ℤ◌
time_sub t u = saturate (t -ℤ u)

-- t.Add(d)
unfoldable pub time_add : Time → Duration → Time
unfolding ◌+ℤ◌
time_add t d = t +ℤ d

-- d.Seconds()
unfoldable pub seconds : {W : Type 0} ⦃f : Float W⦄ → Duration → W
seconds ⦃f⦄ d =
    f.add (f.of_int (quot d second)) (f.div (f.of_int (rem d second)) (f.of_int (pos second)))
