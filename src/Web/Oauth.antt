-- ===== src/Web/Oauth.antt =====
-- The return from GitLab's login, in internal/web/login.go.
pub mod Laws
pub mod Client
pub mod Flow
use notmanytask.Base.{
  ℕ, String, Bool, true, false, ◌&&◌, Option, none, some, List, [], ◌∷◌, ◌++◌, ℤ, ◌==◌, string_eq,
  if◌then◌else◌,
}
use notmanytask.Base.Errors.{Result, ok, err, panic}
use notmanytask.Config.{Config}
use notmanytask.Models.{User, Session}
use notmanytask.Database.Gorm.{Gorm}
use notmanytask.Database.Errors.{is_duplicate_key}
use notmanytask.Database.Users.{is_set, find_user_by_gitlab_id, set_user_gitlab_account}
use notmanytask.Web.Session.{
  Page, redirect, crash, Cookie, Visit, try_find_user_by_token, redirect_to_signup,
  fill_session_for_user,
}

-- gitlab.User of internal/gitlab/oauth.go.
pub record GitlabAccount : Type 0 where
  pub id : ℤ
  pub login : String

abbrev pub same_state : Option String → String → Bool
same_state none state = false
same_state (some kept) state = kept == state

abbrev pub gitlab_failed : String
gitlab_failed = "GitLab authentication failed, try again"

-- `user.GitlabUser = models.GitlabUser{…}`
abbrev pub linked : GitlabAccount → User → User
linked account user = record user {
  gitlab_user = record {
    gitlab_id = some account.id;
    gitlab_login = some account.login;
    repository = none;
  };
}

module _ {S : Type 0} ⦃g : Gorm S⦄ (conf : Config) (saved : Result (Unit {0})) where
  abbrev pub after_fill : Result (Unit {0}) × Visit S → Page × Visit S
  after_fill (ok _, v) = (redirect 302 conf.endpoints.home, v)
  after_fill (err e, v) = redirect_to_signup saved "Internal server error, try again later" v
  after_fill (panic, v) = (crash, v)

  -- AsyncPrepareProject puts the user on the queue.
  abbrev pub after_link : User → Result (Unit {0}) → Visit S → Page × Visit S
  after_link user (ok _) v =
      (redirect 307 conf.endpoints.home, record v { queue = v.queue ++ (user ∷ []) })
  after_link user (err e) v =
      if is_duplicate_key e
      then redirect_to_signup saved "Gitlab account is already registered" v
      else redirect_to_signup saved "Internal server error, try again later" v
  after_link user panic v = (crash, v)

  abbrev pub link_user : GitlabAccount → User → Visit S → Page × Visit S
  link_user account user v =
      let (res, s') = set_user_gitlab_account user.id (linked account user).gitlab_user v.db in
      after_link (linked account user) res (record v { db = s' })

  abbrev pub enter : String → GitlabAccount → User → Visit S → Page × Visit S
  enter token account user v =
      if is_set user.gitlab_login && is_set user.gitlab_id
      then after_fill (fill_session_for_user saved token user v)
      else link_user account user v

  abbrev pub by_account : String → GitlabAccount → Result User → Visit S → Page × Visit S
  by_account token account (ok user) v = enter token account user v
  by_account token account (err e) v =
      redirect_to_signup saved "You are not registered, please try to register first" v
  by_account token account panic v = (crash, v)

  -- user == nil iff the token was not provided.
  abbrev pub identify : String → GitlabAccount → Option (User × Session) → Visit S → Page × Visit S
  identify token account (some (user, session)) v = enter token account user v
  identify token account none v =
      by_account token account (find_user_by_gitlab_id account.id v.db) v

  abbrev pub with_account :
      String → Result GitlabAccount → Option (User × Session) → Visit S → Page × Visit S
  with_account token (ok account) found v = identify token account found v
  with_account token (err e) found v = redirect_to_signup saved gitlab_failed v
  with_account token panic found v = (crash, v)

  abbrev pub with_session :
      String → Result GitlabAccount → Result (Option (User × Session)) → Visit S → Page × Visit S
  with_session token account (ok found) v = with_account token account found v
  with_session token account (err e) v =
      redirect_to_signup saved "You are not registered, try again" v
  with_session token account panic v = (crash, v)

  -- `state` is the query's; `account` is what the exchange of the code and the request for the
  -- current user come to, `token` the uuid of a new session.
  unfoldable pub oauth : String → String → Result GitlabAccount → Visit S → Page × Visit S
  unfolding try_find_user_by_token redirect_to_signup fill_session_for_user find_user_by_gitlab_id
      set_user_gitlab_account is_duplicate_key
  oauth state token account v =
      if same_state v.cookie.oauth_state state
      then with_session token account (try_find_user_by_token v.cookie v.db) v
      else redirect_to_signup saved gitlab_failed v
