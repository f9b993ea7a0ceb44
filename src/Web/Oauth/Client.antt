-- ===== src/Web/Oauth/Client.antt =====
-- The client of GitLab's OAuth: internal/web/oauth.go and internal/gitlab/oauth.go. The packages
-- golang.org/x/oauth2 and go-gitlab are parameters.
use Prim.Native.String.{◌++◌}
use notmanytask.Base.{
  ℕ, String, ◌≡◌, ℤ, List, [], ◌∷◌, eqb, eqb_iff, if◌then◌else◌, Bool-cases, inl, inr,
}
use notmanytask.Base.Errors.{Result, ok, err, new, wrapped, wrapped-ok, ◌>>=◌, bind-ok, ok_inj}
use notmanytask.Config.{Config}
use notmanytask.Web.Oauth.{GitlabAccount}

-- oauth2.Endpoint and oauth2.Config.
pub record Endpoint : Type 0 where
  pub auth_url : String
  pub token_url : String

pub record AuthClient : Type 0 where
  pub client_id : String
  pub client_secret : String
  pub scopes : List String
  pub endpoint : Endpoint
  pub redirect_url : String

-- What CurrentUser returns beside its error: the account, and the code and text of the status.
pub record CurrentUser : Type 0 where
  pub id : ℤ
  pub username : String
  pub status_code : ℕ
  pub status : String

unfoldable pub make_gitlab_oauth_endpoint : String → Endpoint
make_gitlab_oauth_endpoint base_url = record {
  auth_url = base_url ++ "/oauth/authorize";
  token_url = base_url ++ "/oauth/token";
}

unfoldable pub new_auth_client : Config → AuthClient
unfolding make_gitlab_oauth_endpoint
new_auth_client conf = record {
  client_id = conf.gitlab.application.client_id;
  client_secret = conf.gitlab.application.secret;
  scopes = "read_user" ∷ [];
  endpoint = make_gitlab_oauth_endpoint conf.gitlab.base_url;
  redirect_url = conf.endpoints.host_name ++ conf.endpoints.oauth_callback;
}

-- `T` are clients of GitLab. The answers are those at the time of the request.
pub record OauthLib (T : Type 0) : Type 0 where
  pub auth_code_url : AuthClient → String → String
  pub exchange : AuthClient → String → Result String
  pub new_oauth_client : String → String → Result T
  pub current_user : T → Result CurrentUser

module _ {T : Type 0} (lib : OauthLib T) where
  unfoldable pub login_url : AuthClient → String → String
  login_url client state = lib.auth_code_url client state

  -- The access token.
  unfoldable pub exchange : AuthClient → String → Result String
  exchange client code =
      wrapped "Failed to get oauth2 token pair from GitLab" (lib.exchange client code)

  abbrev pub check_status : CurrentUser → Result GitlabAccount
  check_status user =
      if eqb user.status_code 200
      then ok (record { id = user.id; login = user.username })
      else err (new ("failed to get current user: " ++ user.status))

  unfoldable pub get_oauth_gitlab_user : String → String → Result GitlabAccount
  get_oauth_gitlab_user token base_url = do
    client ← wrapped "failed to create gitlab client" (lib.new_oauth_client token base_url)
    user ← wrapped "failed to get current user" (lib.current_user client)
    check_status user

  -- The account that the handler `oauth` resolves a code to.
  unfoldable pub resolve_account : Config → String → Result GitlabAccount
  unfolding exchange new_auth_client get_oauth_gitlab_user
  resolve_account conf code = do
    token ← exchange (new_auth_client conf) code
    get_oauth_gitlab_user token conf.gitlab.base_url

  check_status-ok :
      (user : CurrentUser) (account : GitlabAccount)
      → check_status user ≡ ok account
      → (user.status_code ≡ 200) × (account.id ≡ user.id) × (account.login ≡ user.username)
  check_status-ok user account e = elim (Bool-cases (eqb user.status_code 200)) [
    | inl good ↦
        let same : record { id = user.id; login = user.username } ≡ account =
          ok_inj _ account (rw good at e) in
        ((eqb_iff user.status_code 200).0 good, cc same, cc same)
    | inr bad ↦
        let never : err (new ("failed to get current user: " ++ user.status)) ≡ ok account =
          rw bad at e in
        absurd (cc)
  ]

  -- With the token that GitLab gave in exchange for the code, it names the account as the one of the
  -- current user, with the status 200.
  abbrev pub IsCurrent : Config → String → GitlabAccount → Type 0
  IsCurrent conf code account =
      (token : String) × (client : T) × (user : CurrentUser) × (lib.exchange (new_auth_client conf)
          code
        ≡ ok token)
      × (lib.new_oauth_client token conf.gitlab.base_url ≡ ok client)
      × (lib.current_user client ≡ ok user)
      × (user.status_code ≡ 200)
      × (account.id ≡ user.id)
      × (account.login ≡ user.username)

  pub resolve_account-IsCurrent :
      (conf : Config) (code : String) (account : GitlabAccount)
      → resolve_account conf code ≡ ok account
      → IsCurrent conf code account
  unfolding resolve_account exchange get_oauth_gitlab_user
  resolve_account-IsCurrent conf code account e =
      let (token, e1, rest) = bind-ok _ _ account e in
      let (client, e2, rest') = bind-ok _ _ account rest in
      let (user, e3, checked) = bind-ok _ _ account rest' in
      let (good, id, login) = check_status-ok user account checked in
      (
        token,
        client,
        user,
        wrapped-ok _ _ token e1,
        wrapped-ok _ _ client e2,
        wrapped-ok _ _ user e3,
        good,
        id,
        login,
      )
