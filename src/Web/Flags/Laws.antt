-- ===== src/Web/Flags/Laws.antt =====
-- The form takes the flags that the service issues.
use Prim.Native.Char.{code}
use Prim.Native.String.append
use Prim.Native.String.{[], ◌∷◌, len, slice, ◌++◌}
use text.Mathlib.TextPositions.{starts_with-append, slice-append_right, len-append}
use notmanytask.Base.{
  String, ◌≡◌, sym, subst, ap, ◌∙◌, Bool, true, false, ◌&&◌, eqb, arith, if◌then◌else◌,
}
use notmanytask.Database.Flags.{flag_id}
use notmanytask.Web.Flags.{is_task_char, is_hex_char, match_segments, is_flag}

-- The names of tasks that a flag can carry, and the texts of uuids.
abbrev pub all_task_chars : String → Bool
all_task_chars [] = true
all_task_chars (c ∷ s) = is_task_char c && all_task_chars s

abbrev pub is_task_name : String → Bool
is_task_name [] = false
is_task_name (c ∷ s) = is_task_char c && all_task_chars s

-- Segments of hexadecimal digits with hyphens between them; the flag says whether one has begun.
abbrev pub hex_segments : Bool → String → Bool
hex_segments filled [] = filled
hex_segments filled (c ∷ s) =
    let next = hex_segments false s in
    let more = hex_segments true s in
    if eqb (code c) b'-' then filled && next else is_hex_char c && more

match-uuid :
    (filled : Bool) (uuid : String)
    → hex_segments filled uuid ≡ true
    → match_segments filled true true (uuid ++ "}") ≡ true
unfolding match_segments
match-uuid filled [] h =
    subst (λ b. match_segments b true true ([] ++ "}") ≡ true) (sym h)
      (ap (match_segments true true true) (append.nil "}"))
match-uuid filled (c ∷ s) h =
    rw (append.cons c s "}") (ground (arith, match-uuid true s, match-uuid false s))

match-task :
    (filled hex : Bool) (task uuid : String)
    → all_task_chars task ≡ true
    → (filled ≡ true)
    → hex_segments false uuid ≡ true
    → match_segments filled hex false (task ++ ("-" ++ (uuid ++ "}"))) ≡ true
unfolding match_segments
match-task filled hex [] uuid h full u =
    rw
      (
        append.nil ("-" ++ (uuid ++ "}")),
        append.cons "-" "" (uuid ++ "}"),
        append.nil (uuid ++ "}"),
        full,
      )
      (match-uuid false uuid u)
match-task filled hex (c ∷ s) uuid h full u =
    rw (append.cons c s ("-" ++ (uuid ++ "}")))
      (ground (arith, match-task true (hex && is_hex_char c) s uuid))

is_flag-append : (rest : String) → is_flag ("{FLAG-" ++ rest) ≡ match_segments false true false rest
unfolding is_flag
is_flag-append rest =
    ap
      (λ b.
        if b
        then match_segments false true false
            (slice ("{FLAG-" ++ rest) (len "{FLAG-") (len ("{FLAG-" ++ rest)))
        else false)
      (starts_with-append "{FLAG-" rest)
    ∙ ap (λ n. match_segments false true false (slice ("{FLAG-" ++ rest) (len "{FLAG-") n))
        (len-append "{FLAG-" rest)
    ∙ ap (match_segments false true false) (slice-append_right "{FLAG-" rest)

match-first :
    (task uuid : String)
    → is_task_name task ≡ true
    → hex_segments false uuid ≡ true
    → match_segments false true false (task ++ ("-" ++ (uuid ++ "}"))) ≡ true
unfolding match_segments
match-first [] uuid named u = absurd (cc)
match-first (c ∷ s) uuid named u =
    rw (append.cons c s ("-" ++ (uuid ++ "}")))
      (ground (arith, match-task true (is_hex_char c) s uuid))

-- A flag that CreateFlag issues, for a task whose name has the letters that flags allow and with a
-- uuid of hexadecimal segments, has the form that the flag form asks for.
pub is_flag-flag_id :
    (task uuid : String)
    → is_task_name task ≡ true
    → hex_segments false uuid ≡ true
    → is_flag (flag_id task uuid) ≡ true
unfolding flag_id
is_flag-flag_id task uuid named u =
    is_flag-append (task ++ ("-" ++ (uuid ++ "}"))) ∙ match-first task uuid named u
