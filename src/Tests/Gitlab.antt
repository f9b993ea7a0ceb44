-- ===== src/Tests/Gitlab.antt =====
-- Names, pages and eager imports, at concrete data.
use Prim.Native.String.{◌++◌}
use text.Mathlib.Text.{starts_with}
use notmanytask.Base.{
  ℕ, suc, String, ◌≡◌, ◌≢◌, refl, ◌⊎◌, true, false, none, some, List, [], ◌∷◌, ℤ, pos, In, arith,
}
use notmanytask.Base.Errors.{Error, Result, ok, err}
use notmanytask.Models.{Pipeline, status_running}
use notmanytask.Database.Gorm.{Gorm}
use notmanytask.Database.Gorm.Memory.{down, list_table}
use notmanytask.Gitlab.Names.{branch_prefix, tasks_prefix, parse_task_from_branch}
use notmanytask.Gitlab.Names.Laws.{parse_task_from_branch-submits}
use notmanytask.Gitlab.Paging.{Pages}
use notmanytask.Gitlab.Pipelines.All.{Project, fetch_all_pipelines, fetch_all_pipelines-ends}
use notmanytask.Gitlab.Paging.Laws.{Paginated}
use notmanytask.Gitlab.Pipelines.{PipelineInfo, FreshPipelines, add_fresh, fetch_fresh_pipelines}
use notmanytask.Gitlab.Pipelines.Run.{
  PipelinesFetcher, importing, Answers, Recorded, ImportSteps, stay, next, fresh_tick, AskedOn,
  new_pipelines_fetcher, added-kept,
}
use notmanytask.Gitlab.Pipelines.Fresh.{Entry}
use notmanytask.Config.{PullIntervalsConfig}
use notmanytask.Tests.Samples.{gitlab_conf}

parse_task_example :
    (starts_with "sum" tasks_prefix ≡ false
      → parse_task_from_branch (branch_prefix ++ "sum") ≡ "sum")
    × (parse_task_from_branch (branch_prefix ++ (tasks_prefix ++ "sum")) ≡ "sum")
parse_task_example = parse_task_from_branch-submits "sum"

-- Two pages, with one item each.
abbrev two_pages : {A : Type 0} → A → ℕ → Result (List A × Pages)
two_pages item page =
    ok (item ∷ [], record { current_page = suc page; total_pages = 2; next_page = suc page })

two_pages-Paginated : {A : Type 0} (item : A) → Paginated (two_pages item) 2
two_pages-Paginated item = record { next_later = λ page items pages e more. ground arith }

abbrev one_project : Project
one_project = record { id = pos 1; name = "p" }

abbrev one_run : PipelineInfo
one_run = record {
  id = pos 5;
  ref = "submits/sum";
  status = status_running;
  created_at = some (pos 1);
}

abbrev nothing_fresh : FreshPipelines
nothing_fresh = record { next_pointer = 0; entries = [] }

instance abbrev pipelines_db : Gorm (List Pipeline)
pipelines_db = record {
  users = down;
  pipelines = list_table (λ p. true) (λ p. p);
  sessions = down;
  flags = down;
  overrides = down;
}

fetch_all_example :
    (r : Result (Unit {0})) × (s' : List Pipeline) × (fetch_all_pipelines
        (two_pages one_project)
        (λ project. two_pages one_run)
        3
        []
      ≡ some (r, s'))
    × ((e : Error) → r ≢ err e)
fetch_all_example =
    fetch_all_pipelines-ends (two_pages one_project) (λ project. two_pages one_run) 2
      (two_pages-Paginated one_project) (λ project. two_pages-Paginated one_run) []

abbrev still_running : String → ℤ → Result PipelineInfo
still_running path id =
    ok (record { id = id; ref = "submits/sum"; status = status_running; created_at = some (pos 1) })

abbrev one_fresh : FreshPipelines
one_fresh = record { next_pointer = 1; entries = (0, record { project = "p"; id = pos 5 }) ∷ [] }

abbrev stored_run : List Pipeline
stored_run =
    record { id = pos 5; project = "p"; task = "sum"; status = status_running; started_at = pos 1 }
    ∷ []

import_runs :
    fetch_fresh_pipelines gitlab_conf still_running one_fresh [] ≡ (ok one_fresh, stored_run)
unfolding fetch_fresh_pipelines
import_runs = refl

abbrev has_succeeded : String → ℤ → Result PipelineInfo
has_succeeded path id =
    ok (record { id = id; ref = "submits/sum"; status = "success"; created_at = some (pos 1) })

abbrev stored_success : List Pipeline
stored_success =
    record { id = pos 5; project = "p"; task = "sum"; status = "success"; started_at = pos 1 } ∷ []

import_ends :
    fetch_fresh_pipelines gitlab_conf has_succeeded one_fresh stored_run
    ≡ (ok (record one_fresh { entries = [] }), stored_success)
unfolding fetch_fresh_pipelines
import_ends = refl

abbrev eager_only : PullIntervalsConfig
eager_only = record { deadlines = pos 1; projects = none; pipelines = none }

abbrev at_start : PipelinesFetcher (List Pipeline)
at_start = importing false true nothing_fresh []

starts : new_pipelines_fetcher eager_only [] ≡ ok at_start
unfolding new_pipelines_fetcher
starts = refl

-- A pipeline is added, still runs at a tick, and has succeeded at the next one.
abbrev two_ticks :
    ImportSteps gitlab_conf
      (importing false true (add_fresh (pos 5) "p" nothing_fresh) [])
      (importing false true (record one_fresh { entries = [] }) stored_success)
unfolding add_fresh
two_ticks =
    next (next stay (fresh_tick still_running false one_fresh one_fresh [] stored_run import_runs))
      (fresh_tick has_succeeded false one_fresh _ stored_run stored_success import_ends)

added_kept_example :
    In {A = Entry} (0, record { project = "p"; id = pos 5 }) []
    ⊎ ((answers : Answers) × AskedOn gitlab_conf two_ticks answers
        × Recorded (List Pipeline) gitlab_conf answers (record { project = "p"; id = pos 5 }))
added_kept_example =
    added-kept gitlab_conf eager_only [] [] false true nothing_fresh (pos 5) "p" at_start _ starts
      stay two_ticks
