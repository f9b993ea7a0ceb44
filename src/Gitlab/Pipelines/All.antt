-- ===== src/Gitlab/Pipelines/All.antt =====
-- fetchAllPipelines and forEachProject of internal/gitlab/pipelines.go: the pipelines of all projects,
-- page by page within pages of projects.
use notmanytask.Base.{ℕ, suc, ◌≡◌, ◌≢◌, refl, String, Option, none, some, List, [], ◌∷◌, ℤ}
use notmanytask.Base.Errors.{Error, Result, ok, err, panic}
use notmanytask.Database.Gorm.{Gorm}
use notmanytask.Gitlab.Calls.{Calls, pure, call, then_call-ends, ◌>>◌}
use notmanytask.Gitlab.Paging.{Pages, each_page}
use notmanytask.Gitlab.Paging.Laws.{Paginated, each_page-ends}
use notmanytask.Gitlab.Pipelines.{PipelineInfo, store_page, store_project}

-- gitlab.Project, as far as it is read.
pub record Project : Type 0 where
  pub id : ℤ
  pub name : String

module _ {S : Type 0} where
  unfoldable pub each_project : (Project → Calls S (Unit {0})) → List Project → Calls S (Unit {0})
  each_project callback [] = pure tt
  each_project callback (p ∷ ps) = callback p >> each_project callback ps

  unfoldable pub for_each_project :
      ℕ → (ℕ → Result (List Project × Pages)) → (Project → Calls S (Unit {0})) → Calls S (Unit {0})
  unfolding each_project each_page
  for_each_project fuel list_projects callback =
      each_page list_projects (each_project callback) fuel 0

  -- The error is logged.
  abbrev pub logged : Option (Result (Unit {0}) × S) → Option (Result (Unit {0}) × S)
  logged none = none
  logged (some (ok _, s)) = some (ok tt, s)
  logged (some (err e, s)) = some (ok tt, s)
  logged (some (panic, s)) = some (panic, s)

  each_project-ends :
      (callback : Project → Calls S (Unit {0}))
      → ((p : Project) (s : S) → callback p s ≢ none)
      → (ps : List Project) (s : S) → each_project callback ps s ≢ none
  unfolding each_project
  each_project-ends callback h [] s e = absurd (cc)
  each_project-ends callback h (p ∷ ps) s e =
      then_call-ends (callback p s) _ (h p s) (λ _ s'. each_project-ends callback h ps s') e

  logged-some :
      (o : Option (Result (Unit {0}) × S))
      → o ≢ none
      → (r : Result (Unit {0})) × (s' : S) × (logged o ≡ some (r, s')) × ((e : Error) → r ≢ err e)
  logged-some none h = absurd (h refl)
  logged-some (some (ok _, s)) h = (ok tt, s, refl, λ e q. cc)
  logged-some (some (err x, s)) h = (ok tt, s, refl, λ e q. cc)
  logged-some (some (panic, s)) h = (panic, s, refl, λ e q. cc)

-- `list_projects` are the pages of the group's projects, `list_pipelines` those of a project's id.
module _ {S : Type 0} ⦃g : Gorm S⦄ (list_projects : ℕ → Result (List Project × Pages))
    (list_pipelines : ℤ → ℕ → Result (List PipelineInfo × Pages)) where
  unfoldable pub fetch_all_pipelines : ℕ → Calls S (Unit {0})
  unfolding for_each_project store_project
  fetch_all_pipelines fuel s =
      logged (
        for_each_project fuel list_projects (λ p. store_project fuel (list_pipelines p.id) p.name)
          s)

  store_project-ends :
      (n : ℕ) (p : Project)
      → Paginated (list_pipelines p.id) n
      → (s : S) → store_project (suc n) (list_pipelines p.id) p.name s ≢ none
  unfolding store_project
  store_project-ends n p h s e =
      let (r, ran) =
        each_page-ends (list_pipelines p.id) (λ infos. call (store_page p.name infos))
          (λ infos s' q. absurd (cc)) n h s in
      absurd (cc)

  -- Where the group's projects and the pipelines of every project have at most `n` pages, each of
  -- which names a later one unless it is the last, `n + 1` units of fuel for every loop are enough:
  -- an iteration of the import of all pipelines ends, and never with an error.
  pub fetch_all_pipelines-ends :
      (n : ℕ)
      → Paginated list_projects n
      → ((project : ℤ) → Paginated (list_pipelines project) n)
      → (s : S)
      → (r : Result (Unit {0})) × (s' : S) × (fetch_all_pipelines (suc n) s ≡ some (r, s'))
        × ((e : Error) → r ≢ err e)
  unfolding fetch_all_pipelines for_each_project
  fetch_all_pipelines-ends n projects pipelines s =
      let callback : Project → Calls S (Unit {0}) =
        λ p. store_project (suc n) (list_pipelines p.id) p.name in
      let (r, ran) =
        each_page-ends list_projects (each_project callback)
          (each_project-ends callback (λ p s'. store_project-ends n p (pipelines p.id) s')) n
          projects s in
      logged-some _ (λ q. absurd (cc))
