-- ===== src/Web/Oauth/Flow.antt =====
-- The whole login through GitLab of internal/web/login.go: the handlers `login` and `oauth`, with the
-- client of internal/web/oauth.go and internal/gitlab/oauth.go.
use notmanytask.Base.{
  String, ◌≡◌, refl, ◌↔◌, string_eq, ◌⊎◌, inl, inr, true, false, ◌&&◌, [], ◌∷◌, ◌++◌, Bool-cases,
}
use notmanytask.Base.Errors.{Result, ok}
use notmanytask.Config.{Config}
use notmanytask.Models.{User}
use notmanytask.Database.Gorm.{Gorm}
use notmanytask.Database.Users.{is_set, set_user_gitlab_account}
use notmanytask.Web.Session.{Page, redirect, Visit}
use notmanytask.Web.Signup.{login}
use notmanytask.Web.Oauth.{GitlabAccount, same_state, linked, oauth}
use notmanytask.Web.Oauth.Laws.{oauth-queue}
use notmanytask.Web.Oauth.Client.{
  OauthLib, IsCurrent, new_auth_client, login_url, resolve_account, resolve_account-IsCurrent,
}

module _ {S : Type 0} ⦃g : Gorm S⦄ (conf : Config) (saved : Result (Unit {0})) {T : Type 0}
    (lib : OauthLib T) where
  -- `state` is a fresh uuid.
  unfoldable pub start_login : String → Visit S → Page × Visit S
  unfolding login login_url new_auth_client
  start_login state v = login conf saved (login_url lib (new_auth_client conf)) state v

  -- `code` and `state` are the query's, `token` the uuid of a new session.
  unfoldable pub finish_login : String → String → String → Visit S → Page × Visit S
  unfolding oauth resolve_account
  finish_login state code token v = oauth conf saved state token (resolve_account lib conf code) v

  -- Where the cookie is saved, the login sends the visitor to GitLab, and then the return takes the
  -- state of this login and no other.
  start_login-same_state :
      (u : Unit {0}) (state returned : String) (v : Visit S)
      → saved ≡ ok u
      → ((start_login state v).0 ≡ redirect 302 (lib.auth_code_url (new_auth_client conf) state))
        × ((same_state (start_login state v).1.cookie.oauth_state returned ≡ true)
            ↔ (state ≡ returned))
  unfolding start_login login_url login
  start_login-same_state u state returned v e = (refl, rw e (string_eq.beq_iff state returned))

  -- The return from GitLab's login queues no user for a project, or the state of the query is the one
  -- in the cookie, GitLab names an account for the query's code as the current user, this account was
  -- written to one user who had none so far, and it queues this user; with another state than the
  -- cookie's it queues none and leaves the database as it is.
  pub finish_login-queue :
      (state code token : String) (v : Visit S)
      → let v' = (finish_login state code token v).1 in
        ((v'.queue ≡ v.queue)
          ⊎ ((account : GitlabAccount) × (user : User) × (same_state v.cookie.oauth_state state
                ≡ true)
              × IsCurrent lib conf code account
              × ((set_user_gitlab_account user.id (linked account user).gitlab_user v.db).0 ≡ ok tt)
              × ((is_set user.gitlab_login && is_set user.gitlab_id) ≡ false)
              × (v'.queue ≡ v.queue ++ (linked account user ∷ []))))
        × (same_state v.cookie.oauth_state state ≡ false → (v'.queue ≡ v.queue) × (v'.db ≡ v.db))
  unfolding finish_login
  finish_login-queue state code token v =
      let (queued, other) = oauth-queue conf saved state token (resolve_account lib conf code) v in
      (
        elim queued [
          | inl same ↦ inl same
          | inr (account, user, told, written, free, grown) ↦
              elim (Bool-cases (same_state v.cookie.oauth_state state)) [
                | inl good ↦ inr (
                  account,
                  user,
                  good,
                  resolve_account-IsCurrent lib conf code account told,
                  written,
                  free,
                  grown,
                )
                | inr bad ↦ inl (other bad).0
              ]
        ],
        other,
      )
