-- ===== src/Scorer/Board.antt =====
-- CalcScoreboard, CalcScoreboardWithFilter and CalcUserScores of scorer.go.
pub mod Agreement
pub mod Rows
pub mod Order
use Prim.Native.String.{compare, ◌++◌ as append}
use text.Mathlib.Text.{is_lt}
use notmanytask.Base.{String, Bool, not, Option, none, some, List, [], ◌∷◌, select, if◌then◌else◌}
use notmanytask.Base.Errors.{Result, ok, err, new, wrapped, deref, ◌>>=◌}
use notmanytask.Base.Float.{Float}
use notmanytask.Models.{User, Pipeline, Flag, OverriddenScore}
use notmanytask.Deadlines.Types.{Deadlines}
use notmanytask.Scorer.Types.{ScoredUser, UserScores, Standings, ProjectNames, ScorerDb}
use notmanytask.Scorer.User.{calc_user_scores_impl}
use notmanytask.Scorer.Providers.{cached_pipelines_provider, cached_flags_provider}

-- User.FullName of results.go.
unfoldable pub full_name : ScoredUser → String
full_name u = append u.first_name (append " " u.last_name)

-- `if currentDeadlines == nil`
abbrev pub found_deadlines : {W : Type 0} → Option (Deadlines W) → Result (Deadlines W)
found_deadlines none = err (new "no deadlines found")
found_deadlines (some d) = ok d

-- A filter that is nil keeps all users.
abbrev pub filtered : Option (User → Bool) → List User → List User
filtered none users = users
filtered (some filter) users = select filter users

module _ {W : Type 0} ⦃f : Float W⦄ where
  -- The comparison that sort.Slice is given.
  unfoldable pub standings_less : UserScores W → UserScores W → Bool
  unfolding full_name
  standings_less left right =
      if not (f.eq left.final_mark right.final_mark)
      then f.lt right.final_mark left.final_mark
      else is_lt (compare (full_name left.user) (full_name right.user))

  -- The loop over the users.
  unfoldable pub calc_all :
      ProjectNames
      → Deadlines W
      → (String → Result (List Pipeline))
      → (String → Result (List Flag))
      → List OverriddenScore
      → List User
      → Result (List (UserScores W))
  calc_all names d pipelines flags overrides [] = ok []
  calc_all names d pipelines flags overrides (user ∷ users) = do
    scores ← calc_user_scores_impl names d user pipelines flags overrides
    rest ← calc_all names d pipelines flags overrides users
    ok (scores ∷ rest)

  module _ (names : ProjectNames) (group_deadlines : String → Option (Deadlines W))
      (db : ScorerDb) where
    -- `sort` is sort.Slice. The copy of the deadlines that a Standings holds equals the original.
    unfoldable pub calc_scoreboard_with_filter :
        ((UserScores W → UserScores W → Bool) → List (UserScores W) → List (UserScores W))
        → String
        → Option (User → Bool)
        → Result (Standings W)
    unfolding calc_all
    calc_scoreboard_with_filter sort group_name filter = do
      d ← found_deadlines (group_deadlines group_name)
      users ← db.list_group_users group_name
      pipelines ← cached_pipelines_provider db.list_all_pipelines
      flags ← cached_flags_provider db.list_submitted_flags
      overrides ← wrapped "failed to list all overrides" db.list_overrides
      scores ← calc_all names d pipelines flags overrides (filtered filter users)
      ok (record { deadlines = d; users = sort standings_less scores })

    unfoldable pub calc_scoreboard :
        ((UserScores W → UserScores W → Bool) → List (UserScores W) → List (UserScores W))
        → String
        → Result (Standings W)
    unfolding calc_scoreboard_with_filter
    calc_scoreboard sort group_name = calc_scoreboard_with_filter sort group_name none

    unfoldable pub calc_user_scores : User → Result (UserScores W)
    calc_user_scores user = do
      d ← found_deadlines (group_deadlines user.group_name)
      login ← deref user.gitlab_login
      overrides ← wrapped "failed to list user overrides" (db.list_user_overrides login)
      calc_user_scores_impl names d user db.list_project_pipelines db.list_user_flags overrides
