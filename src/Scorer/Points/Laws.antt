-- ===== src/Scorer/Points/Laws.antt =====
-- The rules of scoring that hold of every policy.
use notmanytask.Base.{
  String, ◌≡◌, refl, sym, ◌∙◌, ap, true, Option, none, some, string_eq, Dict, lookup,
}
use notmanytask.Base.Errors.{ok, bind-ok, ok_inj}
use notmanytask.Base.Float.{Float}
use notmanytask.Models.{User, Pipeline, Flag, OverriddenScore}
use notmanytask.Deadlines.Policy.{ScoringPolicy}
use notmanytask.Deadlines.Types.{Task, TaskGroup, Deadlines}
use notmanytask.Scorer.Status.{task_status}
use notmanytask.Scorer.Types.{ScoredTask, OverrideKey, override_key_eq, ProjectNames}
use notmanytask.Scorer.Points.{assigned, score_by_flag, score_by_override, score_task}

module _ {W : Type 0} ⦃f : Float W⦄ where
  -- A crash-me task is scored by flags only: if the user has submitted none for it, the task's score is
  -- the same whatever pipelines there are.
  pub score_task-crashme :
      (names : ProjectNames) (d : Deadlines W) (user : User) (login : String)
      (policy : Option (ScoringPolicy W)) (group : TaskGroup) (t : Task) (flags : Dict String Flag)
      (ps qs : Dict String Pipeline) (overrides : Dict OverrideKey OverriddenScore)
      → t.crashme ≡ true
      → lookup t.task flags ≡ none
      → score_task names d user login policy group t flags ps overrides
        ≡ score_task names d user login policy group t flags qs overrides
  unfolding score_task assigned
  score_task-crashme names d user login policy group t flags ps qs overrides crash none' =
      simp (crash, none') refl

  -- An override decides: where a task has one and is scored, its score and status are the override's.
  pub score_task-override :
      (names : ProjectNames) (d : Deadlines W) (user : User) (login : String)
      (policy : Option (ScoringPolicy W)) (group : TaskGroup) (t : Task) (flags : Dict String Flag)
      (ps : Dict String Pipeline) (overrides : Dict OverrideKey OverriddenScore)
      (o : OverriddenScore) (scored : ScoredTask)
      → lookup (record { login = login; task = t.task }) overrides ≡ some o
      → score_task names d user login policy group t flags ps overrides ≡ ok scored
      → (scored.score ≡ o.score)
        × (scored.status ≡ task_status o.status)
        × (scored.overridden ≡ true)
  unfolding score_task assigned
  score_task-override names d user login policy group t flags ps overrides o scored has e =
      let (q, e1, e2) =
        bind-ok
          (score_by_flag names d user login policy group t (lookup t.task flags) (lookup t.task ps)
            (assigned names d user login t))
          _ scored e in
      let same : score_by_override names d user login policy group t (some o) q ≡ scored =
        ap (λ x. score_by_override names d user login policy group t x q) (sym has)
        ∙ ok_inj _ scored e2 in
      (
        ap (λ (x : ScoredTask). x.score) (sym same),
        ap (λ (x : ScoredTask). x.status) (sym same),
        ap (λ (x : ScoredTask). x.overridden) (sym same),
      )
