-- ===== src/Tests/Best.antt =====
-- The submits that count, at concrete lists.
use notmanytask.Base.{
  String, ◌≡◌, refl, inl, inr, pos, some, List, [], ◌∷◌, lookup, insert, string_eq, In, select,
  ◌==◌,
}
use notmanytask.Base.Errors.{Result, ok}
use notmanytask.Models.{Pipeline}
use notmanytask.Deadlines.Policy.{linear}
use notmanytask.Scorer.Status.{status_rank, pipeline_less}
use notmanytask.Scorer.Best.{best_pipelines}
use notmanytask.Scorer.Best.Laws.{IsBest, best_pipelines-IsBest}
use notmanytask.Scorer.Best.Order.{outcome, outcome-best_pipelines}
use notmanytask.Scorer.Providers.{cached_pipelines_provider}
use notmanytask.Scorer.Providers.Laws.{cached_pipelines_provider_lem}
use notmanytask.Tests.Samples.{
  int_float, student, runs, failed_run, good_run, raw_deadlines, sum_task, first_group,
}

best_pipelines_keeps_success : lookup "sum" (best_pipelines runs) ≡ some good_run
unfolding best_pipelines lookup insert pipeline_less status_rank
best_pipelines_keeps_success = refl

best_pipelines_example :
    IsBest (λ p. p.task) pipeline_less "sum" (λ p. In p runs) (lookup "sum" (best_pipelines runs))
best_pipelines_example = best_pipelines-IsBest runs "sum"

outcome_example :
    outcome
      (some (linear (pos 100) (pos 0)))
      raw_deadlines
      student
      sum_task
      first_group
      (lookup "sum" (best_pipelines runs))
    ≡ outcome
        (some (linear (pos 100) (pos 0)))
        raw_deadlines
        student
        sum_task
        first_group
        (lookup "sum" (best_pipelines (good_run ∷ failed_run ∷ [])))
outcome_example =
    outcome-best_pipelines (some (linear (pos 100) (pos 0))) raw_deadlines student sum_task
      first_group runs (good_run ∷ failed_run ∷ [])
      (λ p. (
        λ i. elim i [ inl e ↦ inr (inl e) | inr (inl e) ↦ inl e | inr (inr bad) ↦ absurd bad ],
        λ i. elim i [ inl e ↦ inr (inl e) | inr (inl e) ↦ inl e | inr (inr bad) ↦ absurd bad ],
      ))

cached_pipelines_example :
    (provider : String → Result (List Pipeline)) × (cached_pipelines_provider (ok runs)
      ≡ ok provider)
    × ((project : String) → provider project ≡ ok (select (λ p. p.project == project) runs))
cached_pipelines_example = cached_pipelines_provider_lem runs
