-- ===== src/Web/Signup.antt =====
-- The signup form and the login redirect of internal/web/login.go.
pub mod Laws
use Prim.Native.Char.{Char, code}
use Prim.Native.String.{[], ◌∷◌}
use notmanytask.Base.{
  ℕ, String, Bool, true, false, ◌||◌, ◌&&◌, not, none, some, List, eqb, leb, ◌==◌, string_eq,
  if◌then◌else◌,
}
use notmanytask.Base.Errors.{Result, ok, err, panic}
use notmanytask.Config.{Config, GroupConfig}
use notmanytask.Models.{User}
use notmanytask.Database.Gorm.{Gorm}
use notmanytask.Database.Errors.{is_duplicate_key}
use notmanytask.Database.Users.{is_set, add_user}
use notmanytask.Web.Session.{
  Page, redirect, crash, Cookie, Visit, redirect_to_signup, fill_session_for_user,
}
use mathlib.Core.List

-- The class of nameRe, `[А-ЯËа-яë-]`, by its code points. The two letters outside the ranges are
-- U+00CB and U+00EB.
unfoldable pub is_name_char : Char → Bool
is_name_char c =
    (leb 0x410 (code c) && leb (code c) 0x42f)
    || eqb (code c) 0xcb
    || (leb 0x430 (code c) && leb (code c) 0x44f)
    || eqb (code c) 0xeb
    || eqb (code c) b'-'

unfoldable pub all_name_chars : String → Bool
unfolding is_name_char
all_name_chars [] = true
all_name_chars (c ∷ s) = is_name_char c && all_name_chars s

-- nameRe.MatchString
unfoldable pub is_name : String → Bool
unfolding all_name_chars
is_name [] = false
is_name (c ∷ s) = all_name_chars (c ∷ s)

-- The loop over the groups: the last group with the secret wins.
unfoldable pub group_by_secret : List GroupConfig → String → String → String
group_by_secret List.[] secret name = name
group_by_secret (List.◌∷◌ g gs) secret name =
    group_by_secret gs secret (if secret == g.secret then g.name else name)

-- The user that AddUser is given.
abbrev pub new_user : String → String → String → User
new_user first last group = record {
  id = 0;
  gitlab_user = record { gitlab_id = none; gitlab_login = none; repository = none };
  first_name = first;
  last_name = last;
  group_name = group;
  telegram_id = none;
  has_retake = false;
}

-- `saved` is what session.Save() answers, `token` the uuid of a new session, `normalize` the
-- composition of strings.ToLower and strings.Title.
module _ {S : Type 0} ⦃g : Gorm S⦄ (conf : Config) (saved : Result (Unit {0})) where
  abbrev after_session : Result (Unit {0}) × Visit S → Page × Visit S
  after_session (ok _, v) = (redirect 302 conf.endpoints.login, v)
  after_session (err e, v) = redirect_to_signup saved "Failed to create session, try again later" v
  after_session (panic, v) = (crash, v)

  abbrev after_add : String → Result User → Visit S → Page × Visit S
  after_add token (ok user) v =
      if is_set user.gitlab_id || is_set user.gitlab_login
      then redirect_to_signup saved "User is already registered" v
      else after_session (fill_session_for_user saved token user v)
  after_add token (err e) v =
      if is_duplicate_key e
      then redirect_to_signup saved "User is already registered" v
      else redirect_to_signup saved "Internal error, try again later" v
  after_add token panic v = (crash, v)

  unfoldable pub signup_form :
      (String → String) → String → String → String → String → Visit S → Page × Visit S
  unfolding is_name group_by_secret add_user is_duplicate_key redirect_to_signup
      fill_session_for_user
  signup_form normalize token first last secret v =
      let group = group_by_secret conf.groups secret "" in
      if not (is_name first)
      then redirect_to_signup saved "Invalid first name, use only Cyrillic letters" v
      else if not (is_name last)
      then redirect_to_signup saved "Invalid last name, use only Cyrillic letters" v
      else if group == ""
      then redirect_to_signup saved "Invalid secret" v
      else let (res, s') = add_user (new_user (normalize first) (normalize last) group) v.db in
        after_add token res (record v { db = s' })

  -- `state` is a fresh uuid, `login_url` auth.LoginURL. An error of Save is logged.
  unfoldable pub login : (String → String) → String → Visit S → Page × Visit S
  login login_url state v = (
    redirect 302 (login_url state),
    elim saved [
      | ok _ ↦ record v { cookie = record v.cookie { oauth_state = some state } }
      | _ ↦ v
    ],
  )

  unfoldable pub logout : Visit S → Page × Visit S
  unfolding redirect_to_signup
  logout v = redirect_to_signup saved "" v
