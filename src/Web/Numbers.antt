-- ===== src/Web/Numbers.antt =====
-- strconv.Atoi and strconv.ParseInt(s, 10, 64), as internal/web calls them.
use Prim.Native.Char.{code}
use Prim.Native.String.{[], ◌∷◌}
use notmanytask.Base.{
  ℕ, ◌+◌, ◌-◌, ◌*◌, ◌^◌, String, ◌&&◌, Option, none, some, ℤ, pos, sub_ℕ, eqb, leb, ltb,
  if◌then◌else◌,
}
use notmanytask.Base.Errors.{Result, ok, err, external}

-- The digits of a text, after a number that was read.
unfoldable pub read_digits : ℕ → String → Option ℕ
read_digits n [] = some n
read_digits n (c ∷ s) =
    let rest = read_digits (n * 10 + (code c - 48)) s in
    if leb 48 (code c) && leb (code c) 57 then rest else none

abbrev some_digits : String → Option ℕ
some_digits [] = none
some_digits (c ∷ s) = read_digits 0 (c ∷ s)

abbrev invalid : Result ℤ
invalid = err (external "strconv")

abbrev positive : Option ℕ → Result ℤ
positive none = invalid
positive (some n) = if ltb n (2 ^ 63) then ok (pos n) else invalid

abbrev negative : Option ℕ → Result ℤ
negative none = invalid
negative (some n) = if leb n (2 ^ 63) then ok (sub_ℕ 0 n) else invalid

unfoldable pub parse_int : String → Result ℤ
unfolding read_digits
parse_int [] = invalid
parse_int (c ∷ s) =
    if eqb (code c) b'-'
    then negative (some_digits s)
    else if eqb (code c) b'+'
    then positive (some_digits s)
    else positive (read_digits 0 (c ∷ s))
