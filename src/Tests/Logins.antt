-- ===== src/Tests/Logins.antt =====
-- A newcomer comes back from GitLab.
use notmanytask.Base.{◌≡◌, refl, ◌⊎◌, true, false, ◌&&◌, some, List, [], ◌∷◌, ◌++◌, pos}
use notmanytask.Base.Errors.{ok}
use notmanytask.Models.{User}
use notmanytask.Database.Users.{is_set, find_user_by_session, set_user_gitlab_account}
use notmanytask.Web.Session.{Visit}
use notmanytask.Web.Oauth.{GitlabAccount, same_state, linked}
use notmanytask.Web.Oauth.Client.{OauthLib, IsCurrent}
use notmanytask.Web.Oauth.Flow.{finish_login, finish_login-queue}
use notmanytask.Tests.Samples.{newcomer, conf}
use notmanytask.Tests.Web.{users_db, visit}

abbrev gitlab : OauthLib (Unit {0})
gitlab = record {
  auth_code_url = λ client state. state;
  exchange = λ client code. ok "token";
  new_oauth_client = λ token base_url. ok tt;
  current_user = λ client.
      ok (record { id = pos 80; username = "anna"; status_code = 200; status = "200 OK" });
}

-- The session of the cookie belongs to the user 7.
abbrev unlinked : User
unlinked = record newcomer { id = 7 }

abbrev back : Visit (List User)
back = record visit { db = unlinked ∷ [] }

newcomer_is_queued :
    (finish_login conf (ok tt) gitlab "state" "code" "t" back).1.queue
    ≡ linked (record { id = pos 80; login = "anna" }) unlinked ∷ []
unfolding finish_login find_user_by_session
newcomer_is_queued = refl

finish_login_example :
    let v' = (finish_login conf (ok tt) gitlab "state" "code" "t" back).1 in
    ((v'.queue ≡ [])
      ⊎ ((account : GitlabAccount) × (user : User) × (same_state (some "state") "state" ≡ true)
          × IsCurrent gitlab conf "code" account
          × ((set_user_gitlab_account user.id (linked account user).gitlab_user back.db).0 ≡ ok tt)
          × ((is_set user.gitlab_login && is_set user.gitlab_id) ≡ false)
          × (v'.queue ≡ [] ++ (linked account user ∷ []))))
    × (same_state (some "state") "state" ≡ false → (v'.queue ≡ []) × (v'.db ≡ back.db))
finish_login_example = finish_login-queue conf (ok tt) gitlab "state" "code" "t" back
