-- ===== src/Tests/Scores.antt =====
-- The scores of a user, at a concrete course.
use notmanytask.Base.{
  String, ◌≡◌, refl, true, false, ℤ, pos, ◌≤ℤ◌, ◌<ℤ◌, ◌⊎◌, arith, Option, none, some, [], ◌∷◌, Dict,
  lookup, string_eq,
}
use notmanytask.Base.Errors.{ok}
use notmanytask.Base.Time.{Time}
use notmanytask.Models.{User, Pipeline, Flag, OverriddenScore}
use notmanytask.Deadlines.Policy.{ScoringPolicy, policy_score, linear, exponential}
use notmanytask.Scorer.Status.{task_status}
use notmanytask.Scorer.Titles.{make_short_task_name}
use notmanytask.Scorer.Types.{ScoredTask, OverrideKey, override_key_eq}
use notmanytask.Scorer.Points.{score_pipeline, score_task}
use notmanytask.Scorer.Points.Fair.{score_pipeline-fair}
use notmanytask.Tests.Policies.{int_falls}
use notmanytask.Tests.Samples.{
  int_float, student, good_run, raw_deadlines, sum_task, first_group, override_row, plain_names,
}

abbrev soft : Option (ScoringPolicy ℤ)
soft = some (linear (pos 100) (pos 0))

abbrev ivan_sum : Dict OverrideKey OverriddenScore
ivan_sum = (record { login = "ivan"; task = "sum" }, override_row) ∷ []

-- A run that succeeded in time, and one after the final deadline.
abbrev hard : Option (ScoringPolicy ℤ)
hard = some (exponential (pos 5) (pos 0))

abbrev late_run : Pipeline
late_run = record good_run { id = pos 3; started_at = pos 3000 }

abbrev plain_student : User
plain_student = record student { has_retake = false }

score_pipeline_example :
    (score_pipeline hard raw_deadlines student sum_task first_group late_run
      ≤ℤ score_pipeline hard raw_deadlines student sum_task first_group good_run)
    × (pos 0 ≤ℤ score_pipeline hard raw_deadlines student sum_task first_group good_run)
    × ((D : Time)
        → raw_deadlines.scoring.final_deadline ≡ some D
        → D <ℤ good_run.started_at
        → score_pipeline hard raw_deadlines plain_student sum_task first_group good_run ≡ pos 0)
    × (student.has_retake ≡ true
        → (pos 0 ≤ℤ score_pipeline hard raw_deadlines student sum_task first_group good_run)
          × (score_pipeline hard raw_deadlines plain_student sum_task first_group good_run
              ≤ℤ score_pipeline hard raw_deadlines student sum_task first_group good_run)
          × ((score_pipeline hard raw_deadlines student sum_task first_group good_run ≡ pos 0)
              ⊎ (score_pipeline hard raw_deadlines student sum_task first_group good_run
                  ≡ score_pipeline hard raw_deadlines plain_student sum_task first_group good_run)))
score_pipeline_example =
    score_pipeline-fair int_falls 5 100 (pos 0) raw_deadlines student sum_task first_group good_run
      late_run (omega arith) (omega arith) (omega arith) (refl, refl, refl) refl refl (omega arith)

good_run_in_time : score_pipeline hard raw_deadlines student sum_task first_group good_run ≡ pos 100
unfolding score_pipeline policy_score
good_run_in_time = refl

late_run_is_nothing :
    score_pipeline hard raw_deadlines student sum_task first_group late_run ≡ pos 0
unfolding score_pipeline
late_run_is_nothing = refl

no_flag : lookup {K = String} {V = Flag} "crash" [] ≡ none
unfolding lookup
no_flag = refl

abbrev overridden_sum : ScoredTask
overridden_sum = record {
  task = "sum";
  short_name = "sum";
  status = "success";
  score = pos 42;
  max_score = pos 100;
  overridden = true;
  task_url = "sum";
  pipeline_url = "";
  branch_url = "";
}

score_task_runs :
    score_task plain_names raw_deadlines student "ivan" soft first_group sum_task [] [] ivan_sum
    ≡ ok overridden_sum
unfolding score_task lookup make_short_task_name task_status
score_task_runs = refl

finds_override :
    lookup {K = OverrideKey} (record { login = "ivan"; task = "sum" }) ivan_sum ≡ some override_row
unfolding lookup
finds_override = refl
