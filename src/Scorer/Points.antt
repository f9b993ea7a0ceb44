-- ===== src/Scorer/Points.antt =====
-- The points of one task: scorePipeline and the inner loop of calcUserScoresImpl in scorer.go.
pub mod Laws
pub mod Fair
use notmanytask.Base.{
  String, Bool, true, false, Option, none, some, ℤ, pos, negsuc, ltb_ℤ, ◌==◌, string_eq, Dict,
  lookup, if◌then◌else◌,
}
use notmanytask.Base.Errors.{Result, ok, ◌>>=◌}
use notmanytask.Base.Float.{Float}
use notmanytask.Base.Time.{Time, after}
use notmanytask.Models.{User, Pipeline, Flag, OverriddenScore, status_success}
use notmanytask.Deadlines.Policy.{ScoringPolicy, policy_score}
use notmanytask.Deadlines.Types.{Task, TaskGroup, Deadlines}
use notmanytask.Scorer.Status.{task_assigned, task_success, task_status}
use notmanytask.Scorer.Titles.{make_short_task_name}
use notmanytask.Scorer.Types.{ScoredTask, OverrideKey, override_key_eq, ProjectNames}

abbrev pub is_late : Option Time → Time → Bool
is_late none started = false
is_late (some deadline) started = after started deadline

abbrev pub at_least : ℤ → ℤ → ℤ
at_least low score = if ltb_ℤ score low then low else score

-- The pipeline that stands for a submitted flag.
abbrev pub flag_pipeline : Flag → Pipeline
flag_pipeline flag = record {
  id = pos 0;
  project = "";
  task = "";
  status = status_success;
  started_at = flag.created_at;
}

module _ {W : Type 0} ⦃f : Float W⦄ where
  -- The score before a retake is looked at.
  unfoldable pub score_in_time : ScoringPolicy W → Deadlines W → Task → TaskGroup → Time → ℤ
  score_in_time policy d task group started =
      if is_late d.scoring.final_deadline started
      then pos 0
      else policy_score policy task.score group.deadline started

  unfoldable pub retake_score : Deadlines W → Task → ℤ
  retake_score d task = f.to_int (f.mul (f.of_int task.score) d.scoring.retake_penalty)

  abbrev score_by : Option (ScoringPolicy W) → Deadlines W → User → Task → TaskGroup → Pipeline → ℤ
  score_by none d user task group pipeline = negsuc 0
  score_by (some policy) d user task group pipeline =
      let score = score_in_time policy d task group pipeline.started_at in
      if user.has_retake then at_least (retake_score d task) score else score

  unfoldable pub score_pipeline :
      Option (ScoringPolicy W) → Deadlines W → User → Task → TaskGroup → Pipeline → ℤ
  unfolding score_in_time retake_score
  score_pipeline policy d user task group pipeline =
      if pipeline.status == status_success
      then score_by policy d user task group pipeline
      else pos 0

  module _ (names : ProjectNames) (d : Deadlines W) (user : User) (login : String) where
    unfoldable pub assigned : Task → ScoredTask
    assigned task = record {
      task = task.task;
      short_name = make_short_task_name task.task;
      status = task_assigned;
      score = pos 0;
      max_score = task.score;
      overridden = false;
      task_url = names.make_task_url task.task;
      pipeline_url = "";
      branch_url = "";
    }

    module _ (policy : Option (ScoringPolicy W)) (group : TaskGroup) (task : Task) where
      abbrev pub score_by_pipeline : Option Pipeline → ScoredTask → Result ScoredTask
      score_by_pipeline none scored = ok scored
      score_by_pipeline (some pipeline) scored = do
        pipeline_url ← names.make_pipeline_url user pipeline
        branch_url ← names.make_branch_url user pipeline
        ok (record scored {
          status = task_status pipeline.status;
          score = score_pipeline policy d user task group pipeline;
          pipeline_url = pipeline_url;
          branch_url = branch_url;
        })

      abbrev pub score_by_flag : Option Flag → Option Pipeline → ScoredTask → Result ScoredTask
      score_by_flag (some flag) pipeline scored = ok (record scored {
        status = task_success;
        score = score_pipeline policy d user task group (flag_pipeline flag);
      })
      score_by_flag none pipeline scored =
          if task.crashme then ok scored else score_by_pipeline pipeline scored

      abbrev pub score_by_override : Option OverriddenScore → ScoredTask → ScoredTask
      score_by_override none scored = scored
      score_by_override (some o) scored = record scored {
        score = o.score;
        status = task_status o.status;
        overridden = true;
      }

      unfoldable pub score_task :
          Dict String Flag
          → Dict String Pipeline
          → Dict OverrideKey OverriddenScore
          → Result ScoredTask
      unfolding assigned score_pipeline
      score_task flags pipelines overrides = do
        scored ← score_by_flag (lookup task.task flags) (lookup task.task pipelines) (assigned task)
        ok (
            score_by_override (lookup (record { login = login; task = task.task }) overrides)
              scored)
