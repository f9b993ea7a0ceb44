-- ===== src/Scorer/User.antt =====
-- The scores of one user: calcUserScoresImpl of scorer.go.
pub mod Totals
pub mod Success
use notmanytask.Base.{
  String, Option, none, some, List, [], ◌∷◌, ◌++◌, ℤ, pos, ltb_ℤ, int_add, Dict, if◌then◌else◌,
}
use notmanytask.Base.Errors.{Result, ok, wrapped, deref, ◌>>=◌}
use notmanytask.Base.Float.{Float}
use notmanytask.Models.{User, Pipeline, Flag, OverriddenScore}
use notmanytask.Deadlines.Types.{Task, TaskGroup, ScoringGroup, Deadlines}
use notmanytask.Deadlines.Build.{get_scoring_group, get_scoring_policy}
use notmanytask.Scorer.Titles.{prettify_title}
use notmanytask.Scorer.Types.{ScoredTask, ScoredTaskGroup, UserScores, OverrideKey, ProjectNames}
use notmanytask.Scorer.Best.{best_pipelines, best_flags, parse_overrides}
use notmanytask.Scorer.Points.{score_task}

-- The sums that the inner loop keeps.
unfoldable pub total_score : ℤ → List ScoredTask → ℤ
total_score total [] = total
total_score total (t ∷ ts) = total_score (int_add total t.score) ts

unfoldable pub total_max_score : ℤ → List ScoredTask → ℤ
total_max_score total [] = total
total_max_score total (t ∷ ts) = total_max_score (int_add total t.max_score) ts

-- The submits of a user that count.
pub record Submits : Type 0 where
  pub flags : Dict String Flag
  pub pipelines : Dict String Pipeline
  pub overrides : Dict OverrideKey OverriddenScore

module _ {W : Type 0} ⦃f : Float W⦄ where
  -- `scores.FinalMark += weight * float64(totalScore) / float64(MaxScore)`
  abbrev add_mark : Option (ScoringGroup W) → ℤ → W → W
  add_mark none total mark = mark
  add_mark (some g) total mark =
      if ltb_ℤ (pos 0) g.max_score
      then f.add mark (f.div (f.mul g.weight (f.of_int total)) (f.of_int g.max_score))
      else mark

  module _ (names : ProjectNames) (d : Deadlines W) (user : User) (login : String) where
    unfoldable pub score_tasks : TaskGroup → Submits → List Task → Result (List ScoredTask)
    score_tasks group submits [] = ok []
    score_tasks group submits (t ∷ ts) = do
      scored ←
          score_task names d user login (get_scoring_policy d group) group t submits.flags
            submits.pipelines submits.overrides
      rest ← score_tasks group submits ts
      ok (scored ∷ rest)

    abbrev pub scored_group : TaskGroup → List ScoredTask → ScoredTaskGroup
    scored_group group tasks = record {
      title = group.title;
      pretty_title = prettify_title names.title_case group.title;
      deadline = group.deadline;
      tasks = tasks;
      score = total_score (pos 0) tasks;
      max_score = total_max_score (pos 0) tasks;
    }

    -- What the outer loop's body does to `scores`.
    abbrev pub add_group : TaskGroup → List ScoredTask → UserScores W → UserScores W
    add_group group tasks scores =
        let total = total_score (pos 0) tasks in
        record scores {
          groups = scores.groups ++ (scored_group group tasks ∷ []);
          score = int_add scores.score total;
          max_score = int_add scores.max_score (total_max_score (pos 0) tasks);
          final_mark = add_mark (get_scoring_group d group) total scores.final_mark;
        }

    unfoldable pub score_groups : Submits → List TaskGroup → UserScores W → Result (UserScores W)
    unfolding score_tasks
    score_groups submits [] scores = ok scores
    score_groups submits (g ∷ gs) scores = do
      tasks ← score_tasks g submits g.tasks
      score_groups submits gs (add_group g tasks scores)

    abbrev pub no_scores : String → UserScores W
    no_scores project = record {
      groups = [];
      score = pos 0;
      max_score = pos 0;
      final_mark = f.of_int (pos 0);
      user = record {
        first_name = user.first_name;
        last_name = user.last_name;
        gitlab_login = login;
        gitlab_project = project;
      };
    }

-- loadUserPipelines
unfoldable pub load_user_pipelines :
    ProjectNames → User → (String → Result (List Pipeline)) → Result (Dict String Pipeline)
unfolding best_pipelines
load_user_pipelines names user provider = do
  project ← names.make_project_name user
  pipelines ← wrapped "Failed to list use rpipelines" (provider project)
  ok (best_pipelines pipelines)

-- loadUserFlags
unfoldable pub load_user_flags : User → (String → Result (List Flag)) → Result (Dict String Flag)
unfolding best_flags
load_user_flags user provider = do
  login ← deref user.gitlab_login
  flags ← wrapped "Failed to list user flags" (provider login)
  ok (best_flags flags)

-- calcUserScoresImpl
unfoldable pub calc_user_scores_impl :
    {W : Type 0} ⦃f : Float W⦄
    → ProjectNames
    → Deadlines W
    → User
    → (String → Result (List Pipeline))
    → (String → Result (List Flag))
    → List OverriddenScore
    → Result (UserScores W)
unfolding load_user_pipelines load_user_flags score_groups
calc_user_scores_impl names d user pipelines_provider flags_provider raw_overrides = do
  pipelines ← load_user_pipelines names user pipelines_provider
  flags ← load_user_flags user flags_provider
  login ← deref user.gitlab_login
  project ← names.make_project_name user
  let submits : Submits = record {
    flags = flags;
    pipelines = pipelines;
    overrides = parse_overrides raw_overrides;
  }
  score_groups names d user login submits d.assignments (no_scores names d user login project)
