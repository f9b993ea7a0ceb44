-- ===== src/Gitlab/Text.antt =====
-- The texts that internal/gitlab builds: strings.Map, strings.ReplaceAll, strings.TrimPrefix, `%d`.
use Prim.Native.Char.{code}
use Prim.Native.String.{[], ◌∷◌, len, slice, ◌++◌}
use text.Mathlib.Text.{starts_with}
use notmanytask.Base.{
  ℕ, zero, suc, ◌/◌, ◌%◌, String, ◌&&◌, ◌||◌, ℤ, pos, negsuc, eqb, ltb, if◌then◌else◌,
}

-- The map of cleanupName: a hyphen and an apostrophe are dropped.
unfoldable pub drop_marks : String → String
drop_marks [] = []
drop_marks (c ∷ s) =
    let rest = drop_marks s in if eqb (code c) b'-' || eqb (code c) 39 then rest else c ∷ rest

-- strings.ReplaceAll(login, "__", ""), from the left.
unfoldable pub drop_double_underscores : String → String
drop_double_underscores [] = []
drop_double_underscores (c ∷ []) = c ∷ []
drop_double_underscores (c ∷ (d ∷ s)) =
    let after_pair = drop_double_underscores s in
    let after_one = drop_double_underscores (d ∷ s) in
    if eqb (code c) b'_' && eqb (code d) b'_' then after_pair else c ∷ after_one

unfoldable pub trim_prefix : String → String → String
trim_prefix s prefix = if starts_with s prefix then slice s (len prefix) (len s) else s

-- The digits of a number, with one unit of fuel for each.
digit : ℕ → String
digit n =
    if eqb n 0
    then "0"
    else if eqb n 1
    then "1"
    else if eqb n 2
    then "2"
    else if eqb n 3
    then "3"
    else if eqb n 4
    then "4"
    else if eqb n 5
    then "5"
    else if eqb n 6
    then "6"
    else if eqb n 7
    then "7"
    else if eqb n 8
    then "8"
    else "9"

digits : ℕ → ℕ → String
unfolding digit
digits zero n = ""
digits (suc fuel) n =
    let rest = digits fuel (n / 10) in if ltb n 10 then digit n else rest ++ digit (n % 10)

-- `%d`
unfoldable pub int_text : ℤ → String
unfolding digits
int_text (pos n) = digits (suc n) n
int_text (negsuc n) = "-" ++ digits (suc (suc n)) (suc n)
