-- ===== src/Web/Api.antt =====
-- internal/web/api.go: the endpoints for graders and scripts. A body that the framework has bound, or
-- its error, is an argument of the handler.
pub mod Guards
use Prim.Native.String.{◌++◌}
use notmanytask.Base.{
  ℕ, String, Bool, true, false, ◌||◌, Option, none, some, List, [], ◌∷◌, ℤ, ◌==◌, string_eq,
  if◌then◌else◌,
}
use notmanytask.Base.Errors.{Error, Result, ok, err, panic, new, wrapped, deref}
use notmanytask.Base.Float.{Float}
use notmanytask.Base.Time.{Time}
use notmanytask.Config.{Config, GroupConfig, find_default_group}
use notmanytask.Models.{User, Flag}
use notmanytask.Deadlines.Types.{Deadlines}
use notmanytask.Deadlines.Fetcher.{Current, any_group_has_task, group_deadlines}
use notmanytask.Database.Gorm.{Gorm}
use notmanytask.Database.Users.{find_user_by_gitlab_login, set_user_group_name, list_group_users}
use notmanytask.Database.Flags.{create_flag}
use notmanytask.Database.Overrides.{add_override}
use notmanytask.Gitlab.Pipelines.{FreshPipelines, add_fresh}
use notmanytask.Scorer.Types.{UserScores, Standings, ProjectNames}
use notmanytask.Scorer.Board.{calc_scoreboard, calc_user_scores}
use notmanytask.Web.Numbers.{parse_int}
use notmanytask.Web.Attempt.{
  Handler, pure, attempt, gets, require, modify, ◌>>=◌, ◌>>◌, Reply, answer,
}
use notmanytask.Web.Wiring.{scorer_db}

-- The requests of api/*.go.
pub record ReportRequest : Type 0 where
  pub token : String
  pub task : String
  pub user_id : String
  pub pipeline_id : String
  pub project_name : String
  pub failed : ℤ
  pub status : String

pub record FlagRequest : Type 0 where
  pub token : String
  pub task : String

pub record OverrideRequest : Type 0 where
  pub token : String
  pub task : String
  pub login : String
  pub score : ℤ
  pub status : String

pub record ChangeGroupRequest : Type 0 where
  pub token : String
  pub login : String
  pub group_name : String

-- The state that the handlers share.
pub record World (S : Type 0) : Type 0 where
  pub db : S
  pub fresh : FreshPipelines

abbrev pub has_token : List String → String → Bool
has_token [] token = false
has_token (t ∷ ts) token = if token == t then true else has_token ts token

unfoldable pub is_token_valid : Config → String → Bool
is_token_valid conf token = has_token conf.tokens token

-- The loop of changeGroup runs through all groups.
abbrev pub group_exists : List GroupConfig → String → Bool → Bool
group_exists [] name found = found
group_exists (g ∷ gs) name found = group_exists gs name (if g.name == name then true else found)

abbrev pub bad_token : Error
bad_token = new "invalid or expired token"

abbrev pub bad_body : {A : Type 0} → Result A → Result A
bad_body = wrapped "failed to parse request body"

-- `onError(code, fmt.Errorf(msg))` in place of the error.
abbrev pub or_error : {A : Type 0} → Error → Result A → Result A
or_error e (ok a) = ok a
or_error e (err e') = err e
or_error e panic = panic

module _ {S : Type 0} ⦃g : Gorm S⦄ (conf : Config) where
  -- A call of the database in a handler.
  abbrev pub on_db : {A : Type 0} → ℕ → (S → Result A × S) → Handler (World S) A
  on_db code call w = let (res, s') = call w.db in attempt code res (record w { db = s' })

  abbrev report_handler : Result ReportRequest → Handler (World S) (Unit {0})
  report_handler body = do
    req ← attempt 400 (bad_body body)
    id ← attempt 400 (wrapped "failed to parse pipeline_id" (parse_int req.pipeline_id))
    user_id ← attempt 400 (wrapped "failed to parse user_id" (parse_int req.user_id))
    require (is_token_valid conf req.token) 401 bad_token
    modify (λ w. record w { fresh = add_fresh id req.project_name w.fresh })

  unfoldable pub report : Result ReportRequest → World S → Reply (Unit {0}) × World S
  unfolding is_token_valid add_fresh
  report body = answer (report_handler body)

  -- A middleware: the handler behind it runs only if the header's token is valid.
  abbrev pub validate_token : {A : Type 0} → String → Handler (World S) A → Handler (World S) A
  validate_token token next = do
    require (is_token_valid conf token) 401 (new "Invalid or expired token")
    next

  abbrev change_group_handler : Result ChangeGroupRequest → Handler (World S) (Unit {0})
  change_group_handler body = do
    req ← attempt 400 (bad_body body)
    require (is_token_valid conf req.token) 401 bad_token
    found ← gets (λ w. find_user_by_gitlab_login req.login w.db)
    user ← attempt 404 (or_error (new "not found user") found)
    require (group_exists conf.groups req.group_name false) 404 (new "not found group")
    on_db 500 (set_user_group_name (record user { group_name = req.group_name }))

  unfoldable pub change_group : Result ChangeGroupRequest → World S → Reply (Unit {0}) × World S
  unfolding is_token_valid
  change_group body = answer (change_group_handler body)

  -- The route is behind validateToken. `group` is the path's parameter.
  unfoldable pub list_group_members : String → String → World S → Reply (List User) × World S
  unfolding is_token_valid
  list_group_members token group =
      answer (
        validate_token token
          (do found ← gets (λ w. list_group_users group w.db); attempt 404 found))

-- FindDefaultGroup().Name, where the absence of a group is a nil pointer.
abbrev pub default_group_name : Option GroupConfig → Result String
default_group_name none = panic
default_group_name (some c) = ok c.name

-- The group of the query, or else the default group.
abbrev pub queried_group : Config → String → Result String
queried_group conf query =
    if query == "" then default_group_name (find_default_group conf.groups) else ok query

abbrev pub unknown_task : String → Error
unknown_task task = new ("unknown task " ++ task)

module _ {S : Type 0} ⦃g : Gorm S⦄ (conf : Config) {W : Type 0} (current : Current W) where
  abbrev create_flag_handler : String → Time → Result FlagRequest → Handler (World S) String
  create_flag_handler uuid now body = do
    req ← attempt 400 (bad_body body)
    require (is_token_valid conf req.token) 401 bad_token
    require (any_group_has_task current req.task) 400 (unknown_task req.task)
    flag ← on_db conf 500 (create_flag uuid now req.task)
    pure flag.id

  -- createFlag, with the uuid and the time that it draws.
  unfoldable pub create_flag_route :
      String → Time → Result FlagRequest → World S → Reply String × World S
  unfolding is_token_valid
  create_flag_route uuid now body = answer (create_flag_handler uuid now body)

  abbrev override_handler : Result OverrideRequest → Handler (World S) (Unit {0})
  override_handler body = do
    req ← attempt 400 (bad_body body)
    found ← gets (λ w. find_user_by_gitlab_login req.login w.db)
    user ← attempt 404 (or_error (new "not found user") found)
    require (any_group_has_task current req.task) 400 (unknown_task req.task)
    on_db conf 500 (add_override req.login req.task req.score req.status)

  -- The route is behind validateToken, which reads the token of the header.
  unfoldable pub override_route :
      String → Result OverrideRequest → World S → Reply (Unit {0}) × World S
  unfolding is_token_valid
  override_route token body = answer (validate_token conf token (override_handler body))

  module _ ⦃f : Float W⦄ (names : ProjectNames) where
    -- userScores, which no route serves.
    unfoldable pub user_scores : Result String → World S → Reply (UserScores W) × World S
    user_scores body = answer (do
      login ← attempt 400 (wrapped "failed to parse request" body)
      found ← gets (λ w. find_user_by_gitlab_login login w.db)
      user ← attempt 404 (or_error (new "not found user") found)
      scored ← gets (λ w. calc_user_scores names (group_deadlines current) (scorer_db w.db) user)
      attempt 500 (or_error (new "failed to calc scores") scored))

    -- The route is behind validateToken. `sort` is sort.Slice.
    unfoldable pub standings :
        ((UserScores W → UserScores W → Bool) → List (UserScores W) → List (UserScores W))
        → String
        → String
        → World S
        → Reply (Standings W) × World S
    unfolding is_token_valid
    standings sort token query = answer (
        validate_token conf token (do
          group ← attempt 500 (queried_group conf query)
          scored ←
              gets
                (λ w. calc_scoreboard names (group_deadlines current) (scorer_db w.db) sort group)
          attempt 500 (wrapped "failed to list scores" scored)))
