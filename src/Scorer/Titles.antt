-- ===== src/Scorer/Titles.antt =====
-- The names that a page shows: prettifyTitle, capitalizeWords and makeShortTaskName of scorer.go.
use Prim.Native.Char.{Char, code}
use Prim.Native.String.{[], ◌∷◌}
use notmanytask.Base.{
  String, Bool, true, false, ◌&&◌, ◌||◌, Option, none, some, leb, eqb, if◌then◌else◌,
}

abbrev is_digit : Char → Bool
is_digit c = leb b'0' (code c) && leb (code c) b'9'

abbrev pub is_char : Char → Char → Bool
is_char c d = eqb (code c) (code d)

-- `.*` up to the end of the text: no line feed stands in the rest.
one_line : String → Bool
one_line [] = true
one_line (c ∷ s) = if eqb (code c) 10 then false else one_line s

-- The group of `^\d+-(.*)$`, where at least one digit was read.
after_digits : String → Option String
unfolding one_line
after_digits [] = none
after_digits (c ∷ s) =
    let rest = after_digits s in
    if is_digit c then rest else if is_char c "-" && one_line s then some s else none

unfoldable pub title_group : String → Option String
unfolding after_digits
title_group [] = none
title_group (c ∷ s) = if is_digit c then after_digits s else none

-- The function that strings.Map applies.
abbrev blank : Char → Char
blank c = if is_char c "-" || is_char c "_" || is_char c "/" then " " else c

unfoldable pub blanks : String → String
blanks [] = []
blanks (c ∷ s) = blank c ∷ blanks s

-- `title_case` is strings.Title, which reads the tables of Unicode.
unfoldable pub capitalize_words : (String → String) → String → String
unfolding blanks
capitalize_words title_case title = title_case (blanks title)

unfoldable pub prettify_title : (String → String) → String → String
unfolding title_group capitalize_words
prettify_title title_case title = elim (title_group title) [
  | none ↦ capitalize_words title_case title
  | some group ↦ capitalize_words title_case group
]

abbrev pub is_slash : Char → Bool
is_slash c = is_char c "/"

abbrev pub is_empty : String → Bool
is_empty [] = true
is_empty (c ∷ s) = false

unfoldable pub has_slash : String → Bool
has_slash [] = false
has_slash (c ∷ s) = if is_slash c then true else has_slash s

-- path.Base: the slashes at the end are stripped, then all up to the last slash.
unfoldable pub strip_slashes : String → String
strip_slashes [] = []
strip_slashes (c ∷ s) =
    let rest = strip_slashes s in if is_slash c && is_empty rest then [] else c ∷ rest

unfoldable pub after_last_slash : String → String
unfolding has_slash
after_last_slash [] = []
after_last_slash (c ∷ s) =
    let rest = after_last_slash s in if has_slash s then rest else if is_slash c then s else c ∷ s

-- makeShortTaskName, which is path.Base.
unfoldable pub make_short_task_name : String → String
unfolding strip_slashes after_last_slash
make_short_task_name name =
    let e = after_last_slash (strip_slashes name) in
    if is_empty name then "." else if is_empty e then "/" else e
