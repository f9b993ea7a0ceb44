-- ===== src/Deadlines/Types.antt =====
-- The types of internal/deadlines/deadlines.go and scoring.go. A Date is its instant.
use notmanytask.Base.{ℕ, String, Bool, Option, List, ℤ, Dict}
use notmanytask.Base.Time.{Time}
use notmanytask.Deadlines.Policy.{ScoringPolicy}

pub record Task : Type 0 where
  pub task : String
  pub score : ℤ
  pub crashme : Bool

pub record TaskGroup : Type 0 where
  pub title : String
  pub group : String
  pub deadline : Time
  pub start : Time
  pub tasks : List Task

-- The interface value `policy` may be nil.
pub record ScoringPolicySpec (W : Type 0) : Type 0 where
  pub name : String
  pub kind : String
  pub policy : Option (ScoringPolicy W)

pub record ScoringGroup (W : Type 0) : Type 0 where
  pub name : String
  pub weight : W
  pub max_score : ℤ
  pub policy : String

pub record Scoring (W : Type 0) : Type 0 where
  pub policies : List (ScoringPolicySpec W)
  pub groups : List (ScoringGroup W)
  pub default_group : String
  pub final_deadline : Option Time
  pub retake_penalty : W

-- A pointer into `scoring.groups`, as the map `groups` holds them, is an index of that slice.
pub record Deadlines (W : Type 0) : Type 0 where
  pub assignments : List TaskGroup
  pub scoring : Scoring W
  pub policies : Dict String (Option (ScoringPolicy W))
  pub groups : Dict String ℕ
