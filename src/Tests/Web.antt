-- ===== src/Tests/Web.antt =====
-- The web handlers, at concrete requests.
use notmanytask.Base.{
  String, Bool, ◌≡◌, ◌≢◌, refl, ◌⊎◌, ◌↔◌, true, false, some, List, [], ◌∷◌, ℤ, In,
}
use notmanytask.Base.Errors.{Result, ok}
use notmanytask.Base.Time.{Time}
use notmanytask.Config.{GroupConfig}
use notmanytask.Models.{User, Session}
use notmanytask.Deadlines.Fetcher.{Current}
use notmanytask.Database.Gorm.{Gorm, Table}
use notmanytask.Database.Gorm.Memory.{down, list_table}
use notmanytask.Database.Users.{find_user_by_session}
use notmanytask.Web.Api.{
  ReportRequest, FlagRequest, OverrideRequest, ChangeGroupRequest, World, is_token_valid, report,
  create_flag_route, change_group, override_route, list_group_members, standings,
}
use notmanytask.Scorer.Types.{UserScores, ProjectNames}
use notmanytask.Web.Api.Guards.{Refused, invalid_token-Refused}
use notmanytask.Web.Session.{Cookie, Visit, proceed, validate_session}
use notmanytask.Web.Session.Laws.{MayProceed, validate_session-proceed}
use notmanytask.Web.Signup.{is_name, signup_form}
use notmanytask.Web.Signup.Laws.{Rejects, signup_form-guards}
use notmanytask.Tests.Samples.{int_float, student, newcomer, conf, built}

abbrev pub session : Session
session = record { id = 1; token = "t"; user_id = 7 }

abbrev pub one_session : Table (List User) Session
one_session = record down { take = λ p s. ok (session, 1) }

instance abbrev pub users_db : Gorm (List User)
users_db = record {
  users = list_table (λ u. true) (λ u. u);
  pipelines = down;
  sessions = one_session;
  flags = down;
  overrides = down;
}

abbrev current : Current ℤ
current = some (("hse", built) ∷ [])

abbrev world : World (List User)
world = record { db = student ∷ []; fresh = record { next_pointer = 0; entries = [] } }

wrong_token : is_token_valid conf "guess" ≡ false
unfolding is_token_valid
wrong_token = refl

invalid_token_example :
    ((body : ReportRequest) → body.token ≡ "guess" → Refused world (report conf (ok body) world))
    × ((uuid : String) (now : Time) (body : FlagRequest)
        → body.token ≡ "guess"
        → Refused world (create_flag_route conf current uuid now (ok body) world))
    × ((body : Result OverrideRequest)
        → Refused world (override_route conf current "guess" body world))
    × ((body : ChangeGroupRequest)
        → body.token ≡ "guess"
        → Refused world (change_group conf (ok body) world))
    × ((group : String) → Refused world (list_group_members conf "guess" group world))
    × ((names : ProjectNames)
          (sort : (UserScores ℤ → UserScores ℤ → Bool) → List (UserScores ℤ) → List (UserScores ℤ))
          (query : String)
        → Refused world (standings conf current names sort "guess" query world))
invalid_token_example = invalid_token-Refused conf current world "guess" wrong_token

abbrev pub cookie : Cookie
cookie = record { token = some "t"; oauth_state = some "state" }

validate_session_example :
    (validate_session conf false cookie (student ∷ []) ≡ proceed student session) ↔ (
      (t : String) × (cookie.token ≡ some t)
      × (t ≢ "")
      × (find_user_by_session t (student ∷ []) ≡ ok (student, session))
      × MayProceed conf false student)
validate_session_example = validate_session-proceed conf false cookie (student ∷ []) student session

student_proceeds : validate_session conf false cookie (student ∷ []) ≡ proceed student session
unfolding validate_session find_user_by_session
student_proceeds = refl

abbrev pub visit : Visit (List User)
visit = record { db = newcomer ∷ []; cookie = cookie; queue = [] }

-- The letter Ё (U+0401) is none of the form's letters.
io_is_refused : is_name "Ёлкин" ≡ false
unfolding is_name
io_is_refused = refl

signup_form_example :
    Rejects conf
      (ok tt)
      visit
      (signup_form conf (ok tt) (λ name. name) "t" "Иван" "Петров" "open" visit)
    ⊎ ((is_name "Иван" ≡ true)
        × (is_name "Петров" ≡ true)
        × ((group : GroupConfig) × In group conf.groups × (group.secret ≡ "open")))
signup_form_example =
    signup_form-guards conf (ok tt) (λ name. name) "t" "Иван" "Петров" "open" visit
