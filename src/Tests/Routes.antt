-- ===== src/Tests/Routes.antt =====
-- Requests to the routes of a concrete configuration, and an ordered end of the service.
use notmanytask.Base.{ℕ, ◌≡◌, refl, String, some, List, [], ◌∷◌, ◌++◌, ◌==◌, string_eq}
use notmanytask.Base.Errors.{Result, ok}
use notmanytask.Database.Users.{find_user_by_session}
use notmanytask.Web.Session.{validate_session}
use notmanytask.Web.Routes.{
  Action, Route, Router, Request, reached, get, run, login_routes, api_routes, page_routes,
  dispatch,
}
use notmanytask.Web.Routes.Guarded.{Meets, required, dispatch-Meets}
use notmanytask.Tests.Samples.{student, conf}
use notmanytask.Tests.Web.{users_db, session, cookie}

-- Paths fit if they are equal.
abbrev router : Router
router = record { conflict = λ p q. p == q; fits = λ p path. p == path }

abbrev decode : String → Result (List ℕ)
decode text = ok []

abbrev routes : List Route
routes = login_routes conf ++ (api_routes conf ++ page_routes conf)

routes_run : run router (ok tt) decode conf ≡ ok routes
unfolding run
routes_run = refl

abbrev flag_request : Request
flag_request = record { method = get; path = "/flag"; token = ""; cookie = cookie }

flag_page_reached :
    dispatch conf router routes flag_request (student ∷ [])
    ≡ reached Action.render_submit_flag_page (some (student, session))
unfolding dispatch validate_session find_user_by_session login_routes api_routes page_routes
flag_page_reached = refl

dispatch_example :
    Meets conf
      (required Action.render_submit_flag_page)
      flag_request
      (student ∷ [])
      (some (student, session))
dispatch_example =
    dispatch-Meets conf router (ok tt) decode routes flag_request (student ∷ [])
      Action.render_submit_flag_page (some (student, session)) routes_run flag_page_reached
