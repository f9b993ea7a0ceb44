-- ===== src/Web/Session.antt =====
-- The sessions of internal/web/login.go: who is behind a cookie, and who may go on.
pub mod Laws
use notmanytask.Base.{
  ℕ, String, Bool, true, false, ◌&&◌, ◌||◌, not, Option, none, some, List, ◌==◌, string_eq,
  if◌then◌else◌,
}
use notmanytask.Base.Errors.{Result, ok, err, panic, ◌>>=◌}
use notmanytask.Config.{Config}
use notmanytask.Models.{User, Session}
use notmanytask.Database.Gorm.{Gorm}
use notmanytask.Database.Users.{is_set, find_user_by_session, create_session}

-- The values that the session's cookie holds under "token" and "oauthState".
pub record Cookie : Type 0 where
  pub token : Option String
  pub oauth_state : Option String

-- What a handler answers with: a redirect, or a page with its messages.
pub data Page : Type 0 where
  redirect : ℕ → String → Page
  signup_page : String → Page
  telegram_page : String → Page
  flag_page : String → String → Page
  crash : Page

-- tryGetToken: an empty token is none.
abbrev pub token_of : Option String → Option String
token_of none = none
token_of (some t) = if t == "" then none else some t

unfoldable pub try_get_token : Cookie → Option String
try_get_token c = token_of c.token

abbrev pub found_pair : Result (User × Session) → Result (Option (User × Session))
found_pair (ok p) = ok (some p)
found_pair (err e) = err e
found_pair panic = panic

module _ {S : Type 0} ⦃g : Gorm S⦄ where
  abbrev pub find_by : Option String → S → Result (Option (User × Session))
  find_by none s = ok none
  find_by (some token) s = found_pair (find_user_by_session token s)

  unfoldable pub try_find_user_by_token : Cookie → S → Result (Option (User × Session))
  unfolding try_get_token
  try_find_user_by_token c s = find_by (try_get_token c) s

-- What validateSession decides: the handlers behind it run with the user and the session, or not.
pub data Access : Type 0 where
  proceed : User → Session → Access
  abort : Page → Access

module _ (conf : Config) (verify_telegram : Bool) where
  unfoldable pub admit : User → Session → Access
  admit user session =
      if verify_telegram && is_set conf.telegram && not (is_set user.telegram_id)
      then abort (redirect 307 conf.endpoints.telegram_login)
      else if not (is_set user.gitlab_id) || not (is_set user.gitlab_login)
      then abort (redirect 302 conf.endpoints.login)
      else proceed user session

  abbrev pub access_of : Result (Option (User × Session)) → Access
  access_of (ok (some (user, session))) = admit user session
  access_of (ok none) = abort (redirect 307 conf.endpoints.signup)
  access_of (err e) = abort (redirect 307 conf.endpoints.signup)
  access_of panic = abort crash

  unfoldable pub validate_session : {S : Type 0} ⦃g : Gorm S⦄ → Cookie → S → Access
  unfolding try_find_user_by_token admit
  validate_session c s = access_of (try_find_user_by_token c s)

-- The state that a login handler changes: the database, the cookie, and the users that are queued
-- for AsyncPrepareProject.
pub record Visit (S : Type 0) : Type 0 where
  pub db : S
  pub cookie : Cookie
  pub queue : List User

-- session.Save() is an argument: whether the cookie can be written.
module _ {S : Type 0} ⦃g : Gorm S⦄ (saved : Result (Unit {0})) where
  abbrev pub keep_cookie : Cookie → Visit S → Visit S
  keep_cookie c v = elim saved [ ok _ ↦ record v { cookie = c } | _ ↦ v ]

  -- clearSession, whose errors are logged.
  unfoldable pub clear_session : Visit S → Visit S
  clear_session v = keep_cookie (record v.cookie { token = some "" }) v

  -- RedirectToSignup
  unfoldable pub redirect_to_signup : String → Visit S → Page × Visit S
  unfolding clear_session
  redirect_to_signup msg v = (signup_page msg, clear_session v)

  abbrev pub set_token : Result Session → Visit S → Result (Unit {0}) × Visit S
  set_token (ok session) v = (saved, keep_cookie (record v.cookie { token = some session.token }) v)
  set_token (err e) v = (err e, v)
  set_token panic v = (panic, v)

  -- fillSessionForUser, with the token of the new session.
  unfoldable pub fill_session_for_user : String → User → Visit S → Result (Unit {0}) × Visit S
  fill_session_for_user token user v =
      let (session, s') = create_session token user.id v.db in
      set_token session (record v { db = s' })
