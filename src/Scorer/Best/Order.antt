-- ===== src/Scorer/Best/Order.antt =====
-- The order in which the database lists a user's pipelines changes no score.
use text.Mathlib.TextEquality.{eq_iff}
use notmanytask.Base.{
  ℕ, String, ◌≡◌, ◌↔◌, refl, inl, inr, false, Option, none, some, List, ℤ, pos, arith, eqb, ◌==◌,
  string_eq, lookup, In, Bool-cases, if◌then◌else◌,
}
use notmanytask.Base.Float.{Float}
use notmanytask.Models.{User, Pipeline, status_success}
use notmanytask.Deadlines.Policy.{ScoringPolicy}
use notmanytask.Deadlines.Types.{Task, TaskGroup, Deadlines}
use notmanytask.Scorer.Status.{
  TaskStatus, task_status, status_rank, task_assigned, task_banned, task_failed, task_checking,
  task_success, pipeline_less,
}
use notmanytask.Scorer.Points.{score_pipeline}
use notmanytask.Scorer.Best.{best_pipelines}
use notmanytask.Scorer.Best.Laws.{best_pipelines-IsBest, IsBest}

-- Two pipelines neither of which is less than the other have one rank and one start.
pub pipeline_less-tie :
    (p q : Pipeline)
    → pipeline_less p q ≡ false
    → pipeline_less q p ≡ false
    → (status_rank p.status ≡ status_rank q.status) × (p.started_at ≡ q.started_at)
unfolding pipeline_less
pipeline_less-tie p q h k = ground arith

by_rank : ℕ → TaskStatus
by_rank r =
    if eqb r 0
    then task_banned
    else if eqb r 1
    then task_assigned
    else if eqb r 2
    then task_failed
    else if eqb r 3
    then task_checking
    else task_success

-- A rank says what the status is, and whether it is "success".
task_status-eq-by_rank : (s : String) → task_status s ≡ by_rank (status_rank s)
unfolding status_rank task_status by_rank
task_status-eq-by_rank s = ground arith

is_success-eq-rank : (s : String) → (s == status_success) ≡ eqb (status_rank s) 4
unfolding status_rank
is_success-eq-rank s = elim (Bool-cases (s == status_success)) [
  | inl e ↦ rw ((eq_iff s status_success).0 e) refl
  | inr e ↦ ground arith
]

module _ {W : Type 0} ⦃f : Float W⦄ where
  -- The status and the score that a look-up of a task leads to.
  abbrev pub outcome :
      Option (ScoringPolicy W)
      → Deadlines W
      → User
      → Task
      → TaskGroup
      → Option Pipeline
      → TaskStatus × ℤ
  outcome policy d user task group none = (task_assigned, pos 0)
  outcome policy d user task group (some p) =
      (task_status p.status, score_pipeline policy d user task group p)

  outcome_of_tie :
      (policy : Option (ScoringPolicy W)) (d : Deadlines W) (user : User) (task : Task)
      (group : TaskGroup) (p q : Pipeline)
      → pipeline_less p q ≡ false
      → pipeline_less q p ≡ false
      → outcome policy d user task group (some p) ≡ outcome policy d user task group (some q)
  unfolding score_pipeline
  outcome_of_tie none d user task group p q h k =
      let (r, s) = pipeline_less-tie p q h k in
      rw (task_status-eq-by_rank, is_success-eq-rank, r)
        (rw (task_status-eq-by_rank, is_success-eq-rank))
  outcome_of_tie (some policy) d user task group p q h k =
      let (r, s) = pipeline_less-tie p q h k in
      rw (task_status-eq-by_rank, is_success-eq-rank, r, s)
        (rw (task_status-eq-by_rank, is_success-eq-rank))

  -- Two lists of the same pipelines, in any order, give every task the same status and score.
  pub outcome-best_pipelines :
      (policy : Option (ScoringPolicy W)) (d : Deadlines W) (user : User) (task : Task)
      (group : TaskGroup) (ps qs : List Pipeline)
      → ((p : Pipeline) → In p ps ↔ In p qs)
      → outcome policy d user task group (lookup task.task (best_pipelines ps))
        ≡ outcome policy d user task group (lookup task.task (best_pipelines qs))
  outcome-best_pipelines policy d user task group ps qs same =
      compare_best (lookup task.task (best_pipelines ps)) (lookup task.task (best_pipelines qs))
        (best_pipelines-IsBest ps task.task) (best_pipelines-IsBest qs task.task)
    where
      compare_best :
          (o o' : Option Pipeline)
          → IsBest (λ p. p.task) pipeline_less task.task (λ p. In p ps) o
          → IsBest (λ p. p.task) pipeline_less task.task (λ p. In p qs) o'
          → outcome policy d user task group o ≡ outcome policy d user task group o'
      compare_best none none _ _ = refl
      compare_best none (some q) h (i, k, _) = absurd (h q ((same q).1 i) k)
      compare_best (some p) none (i, k, _) h = absurd (h p ((same p).0 i) k)
      compare_best (some p) (some q) (i, k, l) (i', k', l') =
          outcome_of_tie policy d user task group p q (l' p ((same p).0 i) k)
            (l q ((same q).1 i') k')
