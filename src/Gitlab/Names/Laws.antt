-- ===== src/Gitlab/Names/Laws.antt =====
-- The task that a branch of submits names.
use Prim.Native.String.{◌++◌}
use text.Mathlib.Text.{starts_with}
use text.Mathlib.TextPositions.{starts_with-append, slice-append_right, len-append}
use notmanytask.Base.{String, ◌≡◌, refl, ap, ◌∙◌, false}
use notmanytask.Gitlab.Text.{trim_prefix}
use notmanytask.Gitlab.Names.{branch_prefix, tasks_prefix, parse_task_from_branch}

trim_prefix-append : (prefix s : String) → trim_prefix (prefix ++ s) prefix ≡ s
unfolding trim_prefix
trim_prefix-append prefix s =
    rw (starts_with-append prefix s, len-append prefix s) (slice-append_right prefix s)

trim_prefix-other : (prefix s : String) → starts_with s prefix ≡ false → trim_prefix s prefix ≡ s
unfolding trim_prefix
trim_prefix-other prefix s e = rw e refl

-- The branch "submits/" and a task's name stands for this task, where the name does not start with
-- "tasks/", and "submits/tasks/" and any name stands for this name.
pub parse_task_from_branch-submits :
    (task : String)
    → (starts_with task tasks_prefix ≡ false
        → parse_task_from_branch (branch_prefix ++ task) ≡ task)
      × (parse_task_from_branch (branch_prefix ++ (tasks_prefix ++ task)) ≡ task)
unfolding parse_task_from_branch
parse_task_from_branch-submits task = (
  λ e.
      ap (λ s. trim_prefix s tasks_prefix) (trim_prefix-append branch_prefix task)
      ∙ trim_prefix-other tasks_prefix task e,
  ap (λ s. trim_prefix s tasks_prefix) (trim_prefix-append branch_prefix (tasks_prefix ++ task))
      ∙ trim_prefix-append tasks_prefix task,
)
