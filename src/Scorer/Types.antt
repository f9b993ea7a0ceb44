-- ===== src/Scorer/Types.antt =====
-- The results of internal/scorer/results.go, and what the scorer asks of the other parts.
use notmanytask.Base.{String, ◌≡◌, Bool, List, ℤ, Eq, string_eq, ◌==◌, ◌&&◌, ◌↔◌, arith}
use notmanytask.Base.Errors.{Result}
use notmanytask.Base.Time.{Time}
use notmanytask.Models.{User, Pipeline, Flag, OverriddenScore}
use notmanytask.Deadlines.Types.{Deadlines}
use notmanytask.Scorer.Status.{TaskStatus}

pub record ScoredTask : Type 0 where
  pub task : String
  pub short_name : String
  pub status : TaskStatus
  pub score : ℤ
  pub max_score : ℤ
  pub overridden : Bool
  pub task_url : String
  pub pipeline_url : String
  pub branch_url : String

pub record ScoredTaskGroup : Type 0 where
  pub title : String
  pub pretty_title : String
  pub deadline : Time
  pub tasks : List ScoredTask
  pub score : ℤ
  pub max_score : ℤ

-- scorer.User
pub record ScoredUser : Type 0 where
  pub first_name : String
  pub last_name : String
  pub gitlab_login : String
  pub gitlab_project : String

pub record UserScores (W : Type 0) : Type 0 where
  pub groups : List ScoredTaskGroup
  pub score : ℤ
  pub max_score : ℤ
  pub final_mark : W
  pub user : ScoredUser

pub record Standings (W : Type 0) : Type 0 where
  pub deadlines : Deadlines W
  pub users : List (UserScores W)

-- overrideKey
pub record OverrideKey : Type 0 where
  pub login : String
  pub task : String

abbrev pub same_key : OverrideKey → OverrideKey → Bool
same_key a b = a.login == b.login && a.task == b.task

pub same_key_iff : (a b : OverrideKey) → (same_key a b ≡ Bool.true) ↔ (a ≡ b)
same_key_iff a b =
    ground (arith, string_eq.beq_iff a.login b.login, string_eq.beq_iff a.task b.task)

instance abbrev pub override_key_eq : Eq OverrideKey
override_key_eq = record { beq = same_key; beq_iff = same_key_iff }

-- The interface ProjectNameFactory, with strings.Title for the titles.
pub record ProjectNames : Type 0 where
  pub make_project_name : User → Result String
  pub make_pipeline_url : User → Pipeline → Result String
  pub make_branch_url : User → Pipeline → Result String
  pub make_task_url : String → String
  pub title_case : String → String

-- What the scorer reads from the database, in one state of it.
pub record ScorerDb : Type 0 where
  pub list_group_users : String → Result (List User)
  pub list_all_pipelines : Result (List Pipeline)
  pub list_project_pipelines : String → Result (List Pipeline)
  pub list_submitted_flags : Result (List Flag)
  pub list_user_flags : String → Result (List Flag)
  pub list_overrides : Result (List OverriddenScore)
  pub list_user_overrides : String → Result (List OverriddenScore)
