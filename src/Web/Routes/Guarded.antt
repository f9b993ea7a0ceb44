-- ===== src/Web/Routes/Guarded.antt =====
-- What stands before a handler.
use notmanytask.Base.{
  ℕ, String, ◌≡◌, refl, sym, subst, arith, ◌∙◌, inl, inr, Bool, true, false, Bool-cases, ◌&&◌,
  Option, none, some, List, [], ◌∷◌, ◌++◌,
}
use mathlib.Core.List.{append_assoc, append-nil}
use notmanytask.Base.Errors.{Result, ok, ok_inj, bind-ok, wrapped}
use notmanytask.Config.{Config}
use notmanytask.Models.{User, Session}
use notmanytask.Database.Gorm.{Gorm}
use notmanytask.Web.Api.{is_token_valid}
use notmanytask.Web.Session.{Access, proceed, abort, validate_session}
use notmanytask.Web.Routes.{
  Method, same_method, Action, Middleware, Route, Router, Request, reached, session_check,
  token_check, clashes, register, run, find_route, run_chain, behind, follow, dispatch,
  must_get_user, setup_auth, login_routes, api_routes, page_routes,
}

-- Who may reach a handler: anyone, a user with a session (and with a Telegram account, where the bot
-- is configured, if the Bool says so), or who has a token of the course.
pub data Requirement : Type 0 where
  anyone : Requirement
  a_user : Bool → Requirement
  a_token : Requirement

abbrev pub required : Action → Requirement
required Action.telegram_login = a_user false
required Action.telegram_callback = a_user false
required Action.render_home_page = a_user true
required Action.render_submit_flag_page = a_user true
required Action.render_retakes_page = a_user true
required Action.handle_flag_submit = a_user true
required Action.override = a_token
required Action.standings = a_token
required Action.list_group_members = a_token
required _ = anyone

abbrev chain_of : Requirement → List Middleware
chain_of anyone = []
chain_of (a_user telegram) = session_check telegram ∷ []
chain_of a_token = token_check ∷ []

abbrev AllFit : List Route → Type 0
AllFit [] = Unit {0}
AllFit (r ∷ rs) = (r.chain ≡ chain_of (required r.action)) × AllFit rs

all_routes-AllFit :
    (conf : Config) → AllFit (login_routes conf ++ (api_routes conf ++ page_routes conf))
unfolding login_routes api_routes page_routes
all_routes-AllFit conf = ground arith

module _ (router : Router) where
  -- What is registered is all that is to be, in order.
  register-append :
      (known rs out : List Route) → register router known rs ≡ ok out → out ≡ known ++ rs
  unfolding register
  register-append known [] out e = ok_inj out known (sym e) ∙ sym (append-nil known)
  register-append known (r ∷ rs) out e = elim (Bool-cases (clashes router r known)) [
    | inl c ↦ absurd (let h = rw c at e in cc)
    | inr c ↦
        register-append (known ++ (r ∷ [])) rs out (rw c at e) ∙ append_assoc known (r ∷ []) rs
  ]

  find_route-AllFit :
      (method : Method) (path : String) (rs : List Route) (r : Route)
      → AllFit rs
      → find_route router method path rs ≡ some r
      → r.chain ≡ chain_of (required r.action)
  unfolding find_route
  find_route-AllFit method path [] r fit e = absurd (cc)
  find_route-AllFit method path (q ∷ rs) r fit e =
      elim (Bool-cases (same_method q.method method && router.fits q.path path)) [
        | inl c ↦ let same : q ≡ r = let h = rw c at e in cc in rw (← same) fit.0
        | inr c ↦ find_route-AllFit method path rs r fit.1 (rw c at e)
      ]

  run-routes :
      (templates : Result (Unit {0})) (decode : String → Result (List ℕ)) (conf : Config)
      (routes : List Route)
      → run router templates decode conf ≡ ok routes
      → routes ≡ login_routes conf ++ (api_routes conf ++ page_routes conf)
  unfolding run
  run-routes templates decode conf routes e =
      let (_, _, e') = bind-ok (wrapped "Failed to build html templates" templates) _ routes e in
      let (_, _, e'') =
        bind-ok (wrapped "Failed to setup auth" (setup_auth decode conf)) _ routes e' in
      register-append [] (login_routes conf ++ (api_routes conf ++ page_routes conf)) routes e''

behind-reached :
    (action a : Action) (ctx : Option (User × Session)) (access : Access)
    → behind (λ user session. reached action (some (user, session))) access ≡ reached a ctx
    → (action ≡ a)
      × ((user : User) × (session : Session) × (must_get_user ctx ≡ ok user)
          × (access ≡ proceed user session))
unfolding must_get_user
behind-reached action a ctx (proceed user session) e =
    (cc, (user, session, (let c : some (user, session) ≡ ctx = cc in rw (← c) refl), refl))
behind-reached action a ctx (abort page) e = absurd (cc)

module _ {S : Type 0} ⦃g : Gorm S⦄ (conf : Config) where
  -- The request meets the requirement, and the handler finds the user in its context.
  abbrev pub Meets : Requirement → Request → S → Option (User × Session) → Type 0
  Meets anyone req s ctx = Unit {0}
  Meets (a_user telegram) req s ctx =
      (user : User) × (session : Session) × (must_get_user ctx ≡ ok user)
      × (validate_session conf telegram req.cookie s ≡ proceed user session)
  Meets a_token req s ctx = is_token_valid conf req.token ≡ true

  run_chain-Meets :
      (w : Requirement) (action a : Action) (req : Request) (s : S) (ctx : Option (User × Session))
      → run_chain conf action req s (chain_of w) none ≡ reached a ctx
      → (action ≡ a) × Meets w req s ctx
  unfolding run_chain
  run_chain-Meets anyone action a req s ctx e = (cc, tt)
  run_chain-Meets (a_user telegram) action a req s ctx e =
      behind-reached action a ctx (validate_session conf telegram req.cookie s) e
  run_chain-Meets a_token action a req s ctx e = elim (Bool-cases (is_token_valid conf req.token)) [
    | inl t ↦ (cc (rw t at e), t)
    | inr f ↦ absurd (cc (rw f at e))
  ]

  follow-Meets :
      (req : Request) (s : S) (o : Option Route) (a : Action) (ctx : Option (User × Session))
      → ((r : Route) → o ≡ some r → r.chain ≡ chain_of (required r.action))
      → follow conf req s o ≡ reached a ctx
      → Meets (required a) req s ctx
  follow-Meets req s none a ctx fit e = absurd (cc)
  follow-Meets req s (some r) a ctx fit e =
      let h = run_chain-Meets (required r.action) r.action a req s ctx (rw (fit r refl) at e) in
      subst (λ b. Meets (required b) req s ctx) h.0 h.1

  -- If the server starts, every request that reaches a handler meets what the handler requires: a
  -- page for users is reached only with the user and the session in its context that
  -- validateSession has let through (on the two paths to Telegram's login also without a Telegram
  -- account), so that c.MustGet does not panic there, and the endpoints for teachers only with a token
  -- of the course.
  pub dispatch-Meets :
      (router : Router) (templates : Result (Unit {0})) (decode : String → Result (List ℕ))
      (routes : List Route) (req : Request) (s : S) (a : Action) (ctx : Option (User × Session))
      → run router templates decode conf ≡ ok routes
      → dispatch conf router routes req s ≡ reached a ctx
      → Meets (required a) req s ctx
  unfolding dispatch
  dispatch-Meets router templates decode routes req s a ctx started e =
      let fit =
        subst AllFit (sym (run-routes router templates decode conf routes started))
          (all_routes-AllFit conf) in
      follow-Meets req s (find_route router req.method req.path routes) a ctx
        (λ r f. find_route-AllFit router req.method req.path routes r fit f) e
