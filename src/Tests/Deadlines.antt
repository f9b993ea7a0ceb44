-- ===== src/Tests/Deadlines.antt =====
-- Deadlines that are built and reloaded, at a concrete configuration.
use notmanytask.Base.{
  ℕ, String, ◌≡◌, ◌≢◌, refl, ◌⊎◌, true, none, some, [], ◌∷◌, ℤ, In, get_elem?, lookup, insert,
  int_add, string_eq,
}
use notmanytask.Base.Errors.{Result, ok, err, external}
use notmanytask.Deadlines.Types.{Deadlines}
use notmanytask.Deadlines.Build.{
  index_scoring, get_scoring_group, sum_scores, build_scoring_groups, has_task,
}
use notmanytask.Deadlines.Build.MaxScore.{rescored, build_scoring_groups_lem}
use notmanytask.Deadlines.Fetcher.{Remote, Current, fetch, reload, group_deadlines}
use notmanytask.Deadlines.Fetcher.Run.{
  finished, looping, new_fetcher, FetcherSteps, stay, next, tick, cancel, Serves, latest,
  new_fetcher-Serves,
}
use notmanytask.Deadlines.Fetcher.Reload.{IsFetched, reload_lem}
use notmanytask.Tests.Samples.{int_float, raw_deadlines, built, hse_group}

build_scoring_groups_example :
    (e : Deadlines ℤ) × (build_scoring_groups raw_deadlines ≡ ok e)
    × (e.assignments ≡ raw_deadlines.assignments)
    × ((i : ℕ)
        → get_elem? e.scoring.groups i
          ≡ rescored
              (index_scoring raw_deadlines)
              raw_deadlines.assignments
              i
              (get_elem? raw_deadlines.scoring.groups i))
build_scoring_groups_example = build_scoring_groups_lem raw_deadlines

has_task_finds : has_task raw_deadlines "crash" ≡ true
unfolding has_task
has_task_finds = refl

abbrev remote : Remote ℤ
remote = record {
  get = λ url. ok (record { status_code = 200; status = "200 OK"; body = ok "deadlines" });
  yaml_v1 = λ body. err (external "yaml");
  yaml_v2 = λ body. ok raw_deadlines;
}

abbrev answer : Current ℤ
answer = some (("hse", built) ∷ [])

reload_runs : reload remote (hse_group ∷ []) none ≡ (ok tt, answer)
unfolding reload fetch build_scoring_groups get_scoring_group lookup insert int_add sum_scores
reload_runs = refl

abbrev success : Result (Unit {0})
success = ok tt

reload_example :
    ((success ≡ ok tt)
      × ((name : String)
          → IsFetched remote (λ g. In g (hse_group ∷ [])) name (group_deadlines answer name)))
    ⊎ ((success ≢ ok tt) × (answer ≡ none))
reload_example = reload_lem remote (hse_group ∷ []) none answer success reload_runs

-- Addresses that do not answer.
abbrev silent : Remote ℤ
silent = record {
  get = λ url. err (external "timeout");
  yaml_v1 = λ body. err (external "yaml");
  yaml_v2 = λ body. err (external "yaml");
}

fetcher_made : new_fetcher (hse_group ∷ []) remote ≡ ok answer
unfolding new_fetcher reload fetch build_scoring_groups get_scoring_group lookup insert int_add
    sum_scores
fetcher_made = refl

-- A tick without an answer, and the end.
fetcher_run : FetcherSteps (hse_group ∷ []) (looping answer) (finished answer)
unfolding reload fetch
fetcher_run = next (next stay (tick silent answer (λ e. absurd (cc)))) (cancel answer)

fetcher_example : Serves (hse_group ∷ []) (latest (hse_group ∷ []) fetcher_run remote) answer
fetcher_example =
    new_fetcher-Serves (hse_group ∷ []) remote answer (finished answer) fetcher_made fetcher_run
