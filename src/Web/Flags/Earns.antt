-- ===== src/Web/Flags/Earns.antt =====
-- From the flag form over the database to the scorer.
use notmanytask.Base.{String, ◌≡◌, Bool, false, Option, some, List, ◌++◌, string_eq}
use notmanytask.Base.Errors.{Result, ok}
use notmanytask.Base.Float.{Float}
use notmanytask.Base.Time.{before}
use notmanytask.Config.{Config}
use notmanytask.Models.{User, Flag}
use notmanytask.Database.Gorm.{Gorm, TableLaws}
use notmanytask.Database.Flags.{submit_flag}
use notmanytask.Deadlines.Policy.{ScoringPolicy}
use notmanytask.Deadlines.Types.{Task, TaskGroup, Deadlines}
use notmanytask.Scorer.Types.{ScoredTask, override_key_eq, ProjectNames}
use notmanytask.Scorer.Status.{task_success}
use notmanytask.Scorer.Points.{flag_pipeline, score_pipeline}
use notmanytask.Web.Session.{Page, flag_page}

abbrev error_of : Page → String
error_of (flag_page message success) = message
error_of _ = ""

module _ {W : Type 0} ⦃f : Float W⦄ (names : ProjectNames) (d : Deadlines W)
    (policy : Option (ScoringPolicy W)) (group : TaskGroup) where
  -- Who a flag counts for: the scored task is solved, by a flag of the task that is the user's, and
  -- that was not created after `q`.
  abbrev pub EarnsBy : Flag → User → String → Task → Result ScoredTask → Type 0
  EarnsBy q user login t result =
      (counted : Flag) × (scored : ScoredTask) × (result ≡ ok scored)
      × (counted.task ≡ t.task)
      × (counted.gitlab_login ≡ some login)
      × (before q.created_at counted.created_at ≡ false)
      × (scored.status ≡ task_success)
      × (scored.score ≡ score_pipeline policy d user t group (flag_pipeline counted))

module _ {S : Type 0} ⦃g : Gorm S⦄ (live : Flag → Bool) (remove : Flag → Flag)
    (laws : TableLaws g.flags live remove (λ r q. q ≡ r)) where
  -- What the program does to the flags in the meantime: anyone submits any flag, with whatever result,
  -- or flags are added.
  pub data Later (s : S) : S → Type 0 where
    now : Later s s
    submitted :
        {t u : S} (flag login : String) (r : Result (Unit {0}))
        → Later s t
        → submit_flag flag login t ≡ (r, u)
        → Later s u
    added : {t u : S} (more : List Flag) → Later s t → laws.rows u ≡ laws.rows t ++ more → Later s u
