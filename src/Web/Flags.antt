-- ===== src/Web/Flags.antt =====
-- The flag form of internal/web/render.go.
pub mod Laws
pub mod Earns
use Prim.Native.Char.{Char, code}
use Prim.Native.String.{[], ◌∷◌, len, slice}
use text.Mathlib.Text.{starts_with}
use notmanytask.Base.{
  ℕ, String, Bool, true, false, ◌||◌, ◌&&◌, Option, none, some, eqb, leb, if◌then◌else◌,
}
use notmanytask.Base.Errors.{Result, ok, err, panic}
use notmanytask.Config.{Config}
use notmanytask.Models.{User}
use notmanytask.Database.Gorm.{Gorm}
use notmanytask.Database.Flags.{submit_flag}
use notmanytask.Web.Session.{Page, redirect, flag_page, crash}

abbrev is_between : ℕ → ℕ → Char → Bool
is_between low high c = leb low (code c) && leb (code c) high

-- `[a-z0-9_/]` and `[0-9a-f]`
abbrev pub is_task_char : Char → Bool
is_task_char c =
    is_between b'a' b'z' c || is_between b'0' b'9' c || eqb (code c) b'_' || eqb (code c) b'/'

abbrev pub is_hex_char : Char → Bool
is_hex_char c = is_between b'0' b'9' c || is_between b'a' b'f' c

abbrev is_end : String → Bool
is_end [] = true
is_end (c ∷ s) = false

-- The rest of a flag behind "{FLAG", from a segment that has begun: `filled` says that it has a
-- character, `hex` that all of them are hexadecimal, `later` that a whole segment stands before it.
-- As every hexadecimal digit is a task's character, `(-[a-z0-9_/]+)+(-[0-9a-f]+)+\}` wants two
-- segments or more, the last of them hexadecimal.
unfoldable pub match_segments : Bool → Bool → Bool → String → Bool
match_segments filled hex later [] = false
match_segments filled hex later (c ∷ s) =
    let next = match_segments false true true s in
    let more = match_segments true (hex && is_hex_char c) later s in
    if eqb (code c) b'-'
    then filled && next
    else if eqb (code c) b'}'
    then filled && hex && later && is_end s
    else is_task_char c && more

-- flagRe.MatchString
unfoldable pub is_flag : String → Bool
unfolding match_segments
is_flag s =
    if starts_with s "{FLAG-"
    then match_segments false true false (slice s (len "{FLAG-") (len s))
    else false

module _ {S : Type 0} ⦃g : Gorm S⦄ where
  abbrev pub after_submit : Result (Unit {0}) × S → Page × S
  after_submit (ok _, s) = (flag_page "" "The matrix has you...", s)
  after_submit (err e, s) = (flag_page "Unknown flag" "", s)
  after_submit (panic, s) = (crash, s)

  abbrev pub submit_as : Option String → Config → String → S → Page × S
  submit_as none conf flag s = (redirect 302 conf.endpoints.signup, s)
  submit_as (some login) conf flag s =
      if is_flag flag
      then after_submit (submit_flag flag login s)
      else (flag_page "Invalid flag" "", s)

  unfoldable pub handle_flag_submit : Config → User → String → S → Page × S
  unfolding is_flag submit_flag
  handle_flag_submit conf user flag s = submit_as user.gitlab_login conf flag s
