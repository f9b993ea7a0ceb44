-- ===== src/Scorer/Status.antt =====
-- The status of a task, after internal/scorer/results.go and scorer.go.
use notmanytask.Base.{ℕ, String, Bool, ltb, eqb, ◌==◌, string_eq, if◌then◌else◌}
use notmanytask.Base.Time.{before}
use notmanytask.Models.{
  Pipeline, PipelineStatus, status_banned, status_failed, status_canceled, status_pending,
  status_running, status_success,
}

abbrev pub TaskStatus : Type 0
TaskStatus = String

abbrev pub task_assigned : TaskStatus
task_assigned = "assigned"

abbrev pub task_banned : TaskStatus
task_banned = "banned"

abbrev pub task_failed : TaskStatus
task_failed = "failed"

abbrev pub task_checking : TaskStatus
task_checking = "checking"

abbrev pub task_success : TaskStatus
task_success = "success"

-- The switch that both classifications make.
abbrev classify {ℓ} : {A : Type ℓ} → PipelineStatus → A → A → A → A → A → A
classify status banned failed checking success assigned =
    if status == status_banned
    then banned
    else if status == status_failed
    then failed
    else if status == status_canceled
    then failed
    else if status == status_pending
    then checking
    else if status == status_running
    then checking
    else if status == status_success
    then success
    else assigned

-- ClassifyPipelineStatus
unfoldable pub task_status : PipelineStatus → TaskStatus
task_status status =
    classify status task_banned task_failed task_checking task_success task_assigned

-- classifyPipelineStatus: the constants taskStatusBanned … taskStatusSuccess count from 0.
unfoldable pub status_rank : PipelineStatus → ℕ
status_rank status = classify status 0 2 3 4 1

unfoldable pub pipeline_less : Pipeline → Pipeline → Bool
pipeline_less left right =
    if eqb (status_rank left.status) (status_rank right.status)
    then before left.started_at right.started_at
    else ltb (status_rank right.status) (status_rank left.status)
