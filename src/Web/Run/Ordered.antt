-- ===== src/Web/Run/Ordered.antt =====
-- In which order the service starts and ends.
use notmanytask.Base.{◌≡◌, refl, ap, ◌∙◌, ◌⊎◌, inl, inr, List, [], ◌∷◌, ◌++◌}
use mathlib.Core.List.{append_assoc}
use notmanytask.Base.Errors.{Result, ok, err, panic}
use notmanytask.Web.Run.{
  Event, Parts, Traced, started, served, cancelled, waited, synced, deadlines_run, projects_run,
  pipelines_run, pipelines_run_fresh, bot_run, step, steps, openings, deferred, serve, assemble,
  run,
}

-- All goroutines are started, and then the server, or nothing is.
abbrev pub full : List Event
full =
    started deadlines_run
    ∷ started projects_run
    ∷ started pipelines_run
    ∷ started pipelines_run_fresh
    ∷ started bot_run
    ∷ served
    ∷ []

abbrev AllOrNone : List Event → Type 0
AllOrNone events = (events ≡ []) ⊎ (events ≡ full)

step-AllOrNone : (r : Result (Unit {0})) (t : Traced) → AllOrNone t.1 → AllOrNone (step r t).1
step-AllOrNone (ok _) t h = h
step-AllOrNone (err e) t h = inl refl
step-AllOrNone panic t h = inl refl

steps-AllOrNone :
    (rs : List (Result (Unit {0}))) (t : Traced) → AllOrNone t.1 → AllOrNone (steps rs t).1
steps-AllOrNone [] t h = h
steps-AllOrNone (r ∷ rs) t h = step-AllOrNone r (steps rs t) (steps-AllOrNone rs t h)

assemble-AllOrNone : (parts : Parts) → AllOrNone (assemble parts).1
unfolding assemble serve
assemble-AllOrNone parts = steps-AllOrNone (openings parts) (serve parts) (inr refl)

deferred-events : (event : Event) (t : Traced) → (deferred event t).1 ≡ t.1 ++ (event ∷ [])
deferred-events event (r, events) = refl

-- Once there is a logger, Run ends with cancel, then wg.Wait, then zlog.Sync, whichever step fails. Before
-- these it has started all five goroutines and the server, in this order, or nothing at all.
pub run-ordered :
    (parts : Parts)
    → parts.config ≡ ok tt
    → parts.logger ≡ ok tt
    → (front : List Event) × ((run parts).1 ≡ front ++ (cancelled ∷ waited ∷ synced ∷ []))
      × ((front ≡ []) ⊎ (front ≡ full))
unfolding run
run-ordered parts c l = (
  (assemble parts).1,
  rw (c, l)
      (ap (λ events. (events ++ (waited ∷ [])) ++ (synced ∷ []))
          (deferred-events cancelled (assemble parts))
        ∙ ap (λ events. events ++ (synced ∷ []))
            (append_assoc (assemble parts).1 (cancelled ∷ []) (waited ∷ []))
        ∙ append_assoc (assemble parts).1 (cancelled ∷ waited ∷ []) (synced ∷ [])),
  assemble-AllOrNone parts,
)
