-- ===== src/Web/Routes.antt =====
-- Which request reaches which handler: internal/web/server.go, setupLoginService and setupAuth of
-- login.go, setupApiService of api.go.
pub mod Guarded
use notmanytask.Base.{
  ℕ, String, Bool, true, false, ◌&&◌, Option, none, some, List, [], ◌∷◌, ◌++◌, ◌==◌, string_eq,
  if◌then◌else◌,
}
use notmanytask.Base.Errors.{Error, Result, ok, err, panic, wrapped, ◌>>=◌}
use notmanytask.Config.{Config}
use notmanytask.Models.{User, Session}
use notmanytask.Database.Gorm.{Gorm}
use notmanytask.Web.Session.{Cookie, Page, Access, proceed, abort, validate_session}
use notmanytask.Web.Api.{is_token_valid}

pub data Method : Type 0 where
  get : Method
  post : Method
  head : Method

abbrev pub same_method : Method → Method → Bool
same_method get get = true
same_method post post = true
same_method head head = true
same_method _ _ = false

-- The handlers that are registered.
pub data Action : Type 0 where
  login : Action
  logout : Action
  signup : Action
  signup_form : Action
  telegram_login : Action
  telegram_callback : Action
  oauth : Action
  report : Action
  create_flag : Action
  override : Action
  change_group : Action
  standings : Action
  list_group_members : Action
  ping : Action
  render_home_page : Action
  render_submit_flag_page : Action
  render_retakes_page : Action
  handle_flag_submit : Action
  render_standings_page : Action
  handle_chuck_norris : Action
  static_content : Action

pub data Middleware : Type 0 where
  session_check : Bool → Middleware
  token_check : Middleware

pub record Route : Type 0 where
  pub method : Method
  pub path : String
  pub chain : List Middleware
  pub action : Action

abbrev pub route : Method → String → List Middleware → Action → Route
route method path chain action = record {
  method = method;
  path = path;
  chain = chain;
  action = action;
}

-- setupLoginService
unfoldable pub login_routes : Config → List Route
login_routes conf =
    route get conf.endpoints.login [] login
    ∷ route get conf.endpoints.logout [] logout
    ∷ route get conf.endpoints.signup [] signup
    ∷ route post conf.endpoints.signup [] signup_form
    ∷ route get conf.endpoints.telegram_login (session_check false ∷ []) telegram_login
    ∷ route get conf.endpoints.telegram_callback (session_check false ∷ []) telegram_callback
    ∷ route get conf.endpoints.oauth_callback [] oauth
    ∷ []

-- setupApiService
unfoldable pub api_routes : Config → List Route
api_routes conf =
    route post conf.endpoints.api.report [] report
    ∷ route post conf.endpoints.api.flag [] create_flag
    ∷ route post conf.endpoints.api.override (token_check ∷ []) override
    ∷ route post conf.endpoints.api.change_group [] change_group
    ∷ route get conf.endpoints.api.standings (token_check ∷ []) standings
    ∷ route get conf.endpoints.api.list_group_members (token_check ∷ []) list_group_members
    ∷ []

-- The routes that run registers itself. StaticFS stands for GET and HEAD.
unfoldable pub page_routes : Config → List Route
page_routes conf =
    route get "/ping" [] ping
    ∷ route get conf.endpoints.home (session_check true ∷ []) render_home_page
    ∷ route get conf.endpoints.flag (session_check true ∷ []) render_submit_flag_page
    ∷ route get conf.endpoints.retakes (session_check true ∷ []) render_retakes_page
    ∷ route post conf.endpoints.flag (session_check true ∷ []) handle_flag_submit
    ∷ route get conf.endpoints.standings [] render_standings_page
    ∷ route get "/private/solutions/:group/:task" [] handle_chuck_norris
    ∷ route get "/static/*filepath" [] static_content
    ∷ route head "/static/*filepath" [] static_content
    ∷ []

-- setupAuth: the keys of the cookies, which are hexadecimal.
unfoldable pub setup_auth : (String → Result (List ℕ)) → Config → Result (List ℕ × List ℕ)
setup_auth decode conf = do
  auth_key ←
      wrapped "Failed to decode hex authenticationKey" (decode conf.cookies.authentication_key)
  encrypt_key ← wrapped "Failed to decode hex encryptionKey" (decode conf.cookies.encryption_key)
  ok (auth_key, encrypt_key)

-- The routing of gin: whether two patterns cannot stand beside each other, which is a panic, and
-- whether a pattern fits a request's path.
pub record Router : Type 0 where
  pub conflict : String → String → Bool
  pub fits : String → String → Bool

module _ (router : Router) where
  unfoldable pub clashes : Route → List Route → Bool
  clashes r [] = false
  clashes r (q ∷ qs) =
      if same_method r.method q.method && router.conflict r.path q.path then true else clashes r qs

  -- One registration after the other.
  unfoldable pub register : List Route → List Route → Result (List Route)
  unfolding clashes
  register known [] = ok known
  register known (r ∷ rs) =
      let later = register (known ++ (r ∷ [])) rs in if clashes r known then panic else later

  -- server.run, up to r.Run: `templates` is what building them comes to.
  unfoldable pub run : Result (Unit {0}) → (String → Result (List ℕ)) → Config → Result (List Route)
  unfolding setup_auth login_routes api_routes page_routes register
  run templates decode conf = do
    _ ← wrapped "Failed to build html templates" templates
    keys ← wrapped "Failed to setup auth" (setup_auth decode conf)
    register [] (login_routes conf ++ (api_routes conf ++ page_routes conf))

  unfoldable pub find_route : Method → String → List Route → Option Route
  find_route method path [] = none
  find_route method path (r ∷ rs) =
      if same_method r.method method && router.fits r.path path
      then some r
      else find_route method path rs

-- A request, with the header that validateToken reads.
pub record Request : Type 0 where
  pub method : Method
  pub path : String
  pub token : String
  pub cookie : Cookie

-- `reached` is the call of a handler, with what the context holds under "user" and "session".
pub data Outcome : Type 0 where
  not_found : Outcome
  stopped : Page → Outcome
  unauthorized : Outcome
  reached : Action → Option (User × Session) → Outcome

-- The handlers behind validateSession run with what it has set.
abbrev pub behind : (User → Session → Outcome) → Access → Outcome
behind next (proceed user session) = next user session
behind next (abort page) = stopped page

module _ {S : Type 0} ⦃g : Gorm S⦄ (conf : Config) where
  unfoldable pub run_chain :
      Action → Request → S → List Middleware → Option (User × Session) → Outcome
  run_chain action req s [] ctx = reached action ctx
  run_chain action req s (session_check telegram ∷ chain) ctx =
      behind (λ user session. run_chain action req s chain (some (user, session)))
        (validate_session conf telegram req.cookie s)
  run_chain action req s (token_check ∷ chain) ctx =
      let rest = run_chain action req s chain ctx in
      if is_token_valid conf req.token then rest else unauthorized

  abbrev pub follow : Request → S → Option Route → Outcome
  follow req s none = not_found
  follow req s (some r) = run_chain r.action req s r.chain none

  unfoldable pub dispatch : Router → List Route → Request → S → Outcome
  unfolding run_chain find_route
  dispatch router routes req s = follow req s (find_route router req.method req.path routes)

-- c.MustGet("user")
unfoldable pub must_get_user : Option (User × Session) → Result User
must_get_user none = panic
must_get_user (some (user, session)) = ok user
