-- ===== src/Scorer/User/Success.antt =====
-- The scores of a user with a login are always computed.
use notmanytask.Base.{
  String, ◌≡◌, refl, ap, ◌∙◌, Bool, true, false, Option, none, some, List, [], ◌∷◌, Dict, lookup,
  string_eq, if◌then◌else◌,
}
use notmanytask.Base.Errors.{Result, ok, ◌>>=◌, wrapped, deref}
use notmanytask.Base.Float.{Float}
use notmanytask.Models.{User, Pipeline, Flag, OverriddenScore}
use notmanytask.Deadlines.Policy.{ScoringPolicy}
use notmanytask.Deadlines.Types.{Task, TaskGroup, Deadlines}
use notmanytask.Deadlines.Build.{get_scoring_policy}
use notmanytask.Scorer.Types.{ScoredTask, UserScores, OverrideKey, override_key_eq, ProjectNames}
use notmanytask.Scorer.Points.{assigned, score_task, score_by_flag, score_by_pipeline}
use notmanytask.Scorer.User.{
  Submits, score_tasks, score_groups, add_group, no_scores, load_user_pipelines, load_user_flags,
  calc_user_scores_impl,
}

abbrev pub Succeeds : {A : Type 0} → Result A → Type 0
Succeeds {A} r = (a : A) × (r ≡ ok a)

Succeeds-bind :
    {A B : Type 0} (m : Result A) (k : A → Result B)
    → Succeeds m
    → ((a : A) → Succeeds (k a))
    → Succeeds (m >>= k)
Succeeds-bind m k (a, e) h = let (b, e') = h a in (b, ap (λ x. x >>= k) e ∙ e')

-- The names of a user's project and of what is in it can be made.
pub record HasNames (names : ProjectNames) (user : User) : Type 0 where
  pub project_name : Succeeds (names.make_project_name user)
  pub pipeline_url : (p : Pipeline) → Succeeds (names.make_pipeline_url user p)
  pub branch_url : (p : Pipeline) → Succeeds (names.make_branch_url user p)

module _ {W : Type 0} ⦃f : Float W⦄ (names : ProjectNames) (d : Deadlines W) (user : User)
    (named : HasNames names user) where
  module _ (login : String) where
    score_by_flag-Succeeds :
        (policy : Option (ScoringPolicy W)) (group : TaskGroup) (t : Task) (flag : Option Flag)
        (p : Option Pipeline) (q : ScoredTask)
        → Succeeds (score_by_flag names d user login policy group t flag p q)
    score_by_flag-Succeeds policy group t (some flag) p q = (_, refl)
    score_by_flag-Succeeds policy group t none p q = either t.crashme p
      where
        by_pipeline :
            (o : Option Pipeline)
            → Succeeds (score_by_pipeline names d user login policy group t o q)
        by_pipeline none = (_, refl)
        by_pipeline (some run) =
            Succeeds-bind (names.make_pipeline_url user run) _ (named.pipeline_url run) (λ url.
              Succeeds-bind (names.make_branch_url user run) _ (named.branch_url run)
                (λ branch. (_, refl)))

        either :
            (b : Bool) (o : Option Pipeline)
            → Succeeds (if b then ok q else score_by_pipeline names d user login policy group t o q)
        either true o = (_, refl)
        either false o = by_pipeline o

    score_task-Succeeds :
        (policy : Option (ScoringPolicy W)) (group : TaskGroup) (t : Task)
        (flags : Dict String Flag) (pipelines : Dict String Pipeline)
        (overrides : Dict OverrideKey OverriddenScore)
        → Succeeds (score_task names d user login policy group t flags pipelines overrides)
    unfolding score_task
    score_task-Succeeds policy group t flags pipelines overrides =
        Succeeds-bind
          (score_by_flag names d user login policy group t (lookup t.task flags)
            (lookup t.task pipelines) (assigned names d user login t))
          _
          (score_by_flag-Succeeds policy group t (lookup t.task flags) (lookup t.task pipelines)
            (assigned names d user login t))
          (λ q. (_, refl))

    score_tasks-Succeeds :
        (group : TaskGroup) (submits : Submits) (ts : List Task)
        → Succeeds (score_tasks names d user login group submits ts)
    unfolding score_tasks
    score_tasks-Succeeds group submits [] = (_, refl)
    score_tasks-Succeeds group submits (t ∷ ts) =
        Succeeds-bind
          (score_task names d user login (get_scoring_policy d group) group t submits.flags
            submits.pipelines submits.overrides)
          _
          (score_task-Succeeds (get_scoring_policy d group) group t submits.flags submits.pipelines
            submits.overrides)
          (λ q.
            Succeeds-bind (score_tasks names d user login group submits ts) _
              (score_tasks-Succeeds group submits ts) (λ rest. (_, refl)))

    score_groups-Succeeds :
        (submits : Submits) (gs : List TaskGroup) (scores : UserScores W)
        → Succeeds (score_groups names d user login submits gs scores)
    unfolding score_groups
    score_groups-Succeeds submits [] scores = (_, refl)
    score_groups-Succeeds submits (g ∷ gs) scores =
        Succeeds-bind (score_tasks names d user login g submits g.tasks) _
          (score_tasks-Succeeds g submits g.tasks)
          (λ tasks. score_groups-Succeeds submits gs (add_group names d user login g tasks scores))

  -- If a user has a login and names for the project, and the database answers the queries for
  -- pipelines and flags, then the user's scores are computed, whatever the deadlines and overrides are.
  pub calc_user_scores_impl-Succeeds :
      (login : String) (pipelines : String → Result (List Pipeline))
      (flags : String → Result (List Flag)) (overrides : List OverriddenScore)
      → user.gitlab_login ≡ some login
      → ((project : String) → Succeeds (pipelines project))
      → ((l : String) → Succeeds (flags l))
      → Succeeds (calc_user_scores_impl names d user pipelines flags overrides)
  unfolding calc_user_scores_impl load_user_pipelines load_user_flags
  calc_user_scores_impl-Succeeds login pipelines flags overrides has ps fs =
      let linked : Succeeds (deref user.gitlab_login) = (login, ap deref has) in
      Succeeds-bind (load_user_pipelines names user pipelines) _
        (Succeeds-bind (names.make_project_name user) _ named.project_name (λ project.
          let (rows, e) = ps project in
          Succeeds-bind (wrapped "Failed to list use rpipelines" (pipelines project)) _
            (rows, ap (wrapped "Failed to list use rpipelines") e) (λ r. (_, refl))))
        (λ kept.
          Succeeds-bind (load_user_flags user flags) _
            (Succeeds-bind (deref user.gitlab_login) _ linked (λ l.
              let (rows, e) = fs l in
              Succeeds-bind (wrapped "Failed to list user flags" (flags l)) _
                (rows, ap (wrapped "Failed to list user flags") e) (λ r. (_, refl))))
            (λ kept'. Succeeds-bind (deref user.gitlab_login) _ linked (λ l.
              Succeeds-bind (names.make_project_name user) _ named.project_name (λ project.
                score_groups-Succeeds l _ d.assignments (no_scores names d user l project)))))
