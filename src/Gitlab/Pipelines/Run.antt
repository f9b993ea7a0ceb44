-- ===== src/Gitlab/Pipelines/Run.antt =====
-- Run and RunFresh of internal/gitlab/pipelines.go: the two loops that import pipelines, beside the
-- requests of the web server that call AddFresh. The map `fresh` is a sync.Map: a pipeline that is
-- added during an iteration is visited by it or not, as if it were added before or after it.
use text.Mathlib.TextEquality.{eq_iff}
use notmanytask.Base.{
  ℕ, String, Bool, true, false, ◌≡◌, ◌≢◌, refl, sym, ◌⊎◌, inl, inr, Option, none, some, List, [],
  ◌∷◌, ℤ, pos, ltb_ℤ, if◌then◌else◌, In, Option-cases,
}
use notmanytask.Base.Errors.{Result, ok, err, panic, wrapped-ok, ◌>>=◌, bind-ok, ok_inj}
use notmanytask.Base.Time.{Time, Duration}
use notmanytask.Config.{GitLabConfig, PullIntervalsConfig}
use notmanytask.Models.{Pipeline, status_running}
use notmanytask.Database.Gorm.{Gorm}
use notmanytask.Database.Submits.{add_pipeline}
use notmanytask.Gitlab.Names.{make_project_with_namespace, parse_task_from_branch}
use notmanytask.Gitlab.Paging.{Pages}
use notmanytask.Gitlab.Pipelines.{
  PipelineInfo, QualifiedPipelineId, FreshPipelines, add_fresh, is_over, store_pipeline,
  store_fetched, fetch, fetch_fresh_pipelines,
}
use notmanytask.Gitlab.Pipelines.All.{Project, fetch_all_pipelines}
use notmanytask.Gitlab.Pipelines.Fresh.{
  Entry, IsAllocated, Finished, add_fresh-IsAllocated, fetch_fresh_pipelines_sweeps,
}

-- Whether Run and RunFresh are in their loops, the map, and the database.
pub data PipelinesFetcher (S : Type 0) : Type 0 where
  importing : Bool → Bool → FreshPipelines → S → PipelinesFetcher S

abbrev pub fresh_of : {S : Type 0} → PipelinesFetcher S → FreshPipelines
fresh_of (importing all eager fresh s) = fresh

-- GitLab's answers to a request for a pipeline.
abbrev pub Answers : Type 0
Answers = String → ℤ → Result PipelineInfo

-- Without an interval, Run returns at once; time.NewTicker panics unless its argument is positive.
abbrev pub has_ticker : Option Duration → Result Bool
has_ticker none = ok false
has_ticker (some d) = if ltb_ℤ (pos 0) d then ok true else panic

abbrev empty : FreshPipelines
empty = record { next_pointer = 0; entries = [] }

-- NewPipelinesFetcher, when the goroutines of both loops have started.
unfoldable pub new_pipelines_fetcher :
    {S : Type 0} → PullIntervalsConfig → S → Result (PipelinesFetcher S)
new_pipelines_fetcher intervals s = do
  all ← has_ticker intervals.pipelines
  ok (importing all true empty s)

-- The row that an import writes.
abbrev pub imported : String → PipelineInfo → Time → Pipeline
imported project info started = record {
  id = info.id;
  project = project;
  task = parse_task_from_branch info.ref;
  status = info.status;
  started_at = started;
}

-- A pipeline that GitLab does not report as running is stored with this status.
abbrev pub Recorded :
    (S : Type 0) ⦃g : Gorm S⦄ → GitLabConfig → Answers → QualifiedPipelineId → Type 0
Recorded S conf answers q =
    (info : PipelineInfo) × (started : Time) × (answers (make_project_with_namespace conf q.project)
        q.id
      ≡ ok info)
    × (info.status ≢ status_running)
    × (s : S) × ((add_pipeline (imported q.project info started) s).0 ≡ ok tt)

empty-IsAllocated : IsAllocated empty
empty-IsAllocated = record { below = λ e bad. absurd bad; unique = λ a b bad. absurd bad }

stored-Over :
    (r : Result (Unit {0})) (info : PipelineInfo)
    → is_over (r >>= λ _. ok info) ≡ true
    → (r ≡ ok tt) × (info.status ≢ status_running)
unfolding is_over
stored-Over (ok _) info o = (refl, λ z. cc ((eq_iff info.status status_running).1 z, o))
stored-Over (err e) info o = absurd (cc)
stored-Over panic info o = absurd (cc)

module _ {S : Type 0} ⦃g : Gorm S⦄ (conf : GitLabConfig) where
  -- At a tick GitLab may answer anything; a panic would end the program. `other` is what the rest of
  -- the program does to the database.
  pub data ImportStep : PipelinesFetcher S → PipelinesFetcher S → Type 0 where
    tick :
        (list_projects : ℕ → Result (List Project × Pages))
        (list_pipelines : ℤ → ℕ → Result (List PipelineInfo × Pages)) (fuel : ℕ) (eager : Bool)
        (fresh : FreshPipelines) (s s' : S)
        → fetch_all_pipelines list_projects list_pipelines fuel s ≡ some (ok tt, s')
        → ImportStep (importing true eager fresh s) (importing true eager fresh s')
    fresh_tick :
        (answers : Answers) (all : Bool) (fresh fresh' : FreshPipelines) (s s' : S)
        → fetch_fresh_pipelines conf answers fresh s ≡ (ok fresh', s')
        → ImportStep (importing all true fresh s) (importing all true fresh' s')
    add :
        (id : ℤ) (project : String) (all eager : Bool) (fresh : FreshPipelines) (s : S)
        → ImportStep
            (importing all eager fresh s)
            (importing all eager (add_fresh id project fresh) s)
    other :
        (all eager : Bool) (fresh : FreshPipelines) (s s' : S)
        → ImportStep (importing all eager fresh s) (importing all eager fresh s')
    cancel :
        (eager : Bool) (fresh : FreshPipelines) (s : S)
        → ImportStep (importing true eager fresh s) (importing false eager fresh s)
    cancel_fresh :
        (all : Bool) (fresh : FreshPipelines) (s : S)
        → ImportStep (importing all true fresh s) (importing all false fresh s)

  pub data ImportSteps (c : PipelinesFetcher S) : PipelinesFetcher S → Type 0 where
    stay : ImportSteps c c
    next : {d e : PipelinesFetcher S} → ImportSteps c d → ImportStep d e → ImportSteps c e

  -- The answers that GitLab gave to the eager import on the way.
  abbrev asked : {c d : PipelinesFetcher S} → ImportStep c d → List Answers
  asked (fresh_tick answers all fresh fresh' s s' e) = answers ∷ []
  asked (tick list_projects list_pipelines fuel eager fresh s s' e) = []
  asked (add id project all eager fresh s) = []
  asked (other all eager fresh s s') = []
  asked (cancel eager fresh s) = []
  asked (cancel_fresh all fresh s) = []

  abbrev pub AskedOn : {c d : PipelinesFetcher S} → ImportSteps c d → Answers → Type 0
  AskedOn stay answers = ⊥
  AskedOn (next sts st) answers = In answers (asked st) ⊎ AskedOn sts answers

  store_pipeline-ok :
      (project : String) (info : PipelineInfo) (s : S)
      → (store_pipeline project info s).0 ≡ ok tt
      → (started : Time) × ((add_pipeline (imported project info started) s).0 ≡ ok tt)
  unfolding store_pipeline
  store_pipeline-ok project info s e = elim (Option-cases info.created_at) [
    | inl missing ↦ let bad : panic ≡ ok tt = rw missing at e in absurd (cc)
    | inr (started, there) ↦ (started, rw there at e)
  ]

  over-stored :
      (answers : Answers) (project : String) (r : Result PipelineInfo) (s : S)
      → is_over (store_fetched conf answers project r s).0 ≡ true
      → (info : PipelineInfo) × (started : Time) × (r ≡ ok info)
        × (info.status ≢ status_running)
        × ((add_pipeline (imported project info started) s).0 ≡ ok tt)
  unfolding is_over
  over-stored answers project (ok info) s o =
      let (done, ne) = stored-Over (store_pipeline project info s).0 info o in
      let (started, added) = store_pipeline-ok project info s done in
      (info, started, refl, ne, added)
  over-stored answers project (err e) s o = absurd (cc)
  over-stored answers project panic s o = absurd (cc)

  Finished-Recorded :
      (answers : Answers) (q : QualifiedPipelineId)
      → Finished S conf answers q
      → Recorded S conf answers q
  unfolding fetch
  Finished-Recorded answers q (s, over) =
      let (info, started, e, ne, added) = over-stored answers q.project _ s over in
      (info, started, wrapped-ok _ _ info e, ne, s, added)

  ImportStep-IsAllocated :
      {c d : PipelinesFetcher S}
      → ImportStep c d
      → IsAllocated (fresh_of c)
      → IsAllocated (fresh_of d)
  ImportStep-IsAllocated (fresh_tick answers all fresh fresh' s s' e) h =
      (fetch_fresh_pipelines_sweeps conf answers fresh fresh' s s' h e).0
  ImportStep-IsAllocated (add id project all eager fresh s) h =
      (add_fresh-IsAllocated id project fresh h).0
  ImportStep-IsAllocated (tick list_projects list_pipelines fuel eager fresh s s' e) h = h
  ImportStep-IsAllocated (other all eager fresh s s') h = h
  ImportStep-IsAllocated (cancel eager fresh s) h = h
  ImportStep-IsAllocated (cancel_fresh all fresh s) h = h

  ImportSteps-IsAllocated :
      {c d : PipelinesFetcher S}
      → ImportSteps c d
      → IsAllocated (fresh_of c)
      → IsAllocated (fresh_of d)
  ImportSteps-IsAllocated stay h = h
  ImportSteps-IsAllocated (next sts st) h =
      ImportStep-IsAllocated st (ImportSteps-IsAllocated sts h)

  step-keeps :
      {c d : PipelinesFetcher S} (st : ImportStep c d)
      → IsAllocated (fresh_of c)
      → (e : Entry) → In e (fresh_of c).entries
      → In e (fresh_of d).entries
        ⊎ ((answers : Answers) × In answers (asked st) × Recorded S conf answers e.1)
  step-keeps (fresh_tick answers all fresh fresh' s s' run) h e i =
      elim ((fetch_fresh_pipelines_sweeps conf answers fresh fresh' s s' h run).2 e i) [
        | inl j ↦ inl j
        | inr over ↦ inr (answers, inl refl, Finished-Recorded answers e.1 over)
      ]
  step-keeps (add id project all eager fresh s) h e i =
      inl ((add_fresh-IsAllocated id project fresh h).2 e i)
  step-keeps (tick list_projects list_pipelines fuel eager fresh s s' run) h e i = inl i
  step-keeps (other all eager fresh s s') h e i = inl i
  step-keeps (cancel eager fresh s) h e i = inl i
  step-keeps (cancel_fresh all fresh s) h e i = inl i

  steps-keep :
      {c d : PipelinesFetcher S} (sts : ImportSteps c d)
      → IsAllocated (fresh_of c)
      → (e : Entry) → In e (fresh_of c).entries
      → In e (fresh_of d).entries
        ⊎ ((answers : Answers) × AskedOn sts answers × Recorded S conf answers e.1)
  steps-keep stay h e i = inl i
  steps-keep (next sts st) h e i = elim (steps-keep sts h e i) [
    | inl j ↦ elim (step-keeps st (ImportSteps-IsAllocated sts h) e j) [
      | inl k ↦ inl k
      | inr (answers, m, stored) ↦ inr (answers, inl m, stored)
    ]
    | inr (answers, m, stored) ↦ inr (answers, inr m, stored)
  ]

  new-IsAllocated :
      (intervals : PullIntervalsConfig) (s : S) (c : PipelinesFetcher S)
      → new_pipelines_fetcher intervals s ≡ ok c
      → IsAllocated (fresh_of c)
  unfolding new_pipelines_fetcher
  new-IsAllocated intervals s c e =
      let (all, ticks, started) = bind-ok (has_ticker intervals.pipelines) _ c e in
      let same : importing all true empty s ≡ c = ok_inj _ c started in
      rw (sym same) empty-IsAllocated

  -- Where the loops have started, whenever the web server calls AddFresh, and however the two loops,
  -- further calls and the rest of the program go on, as long as they run through without a panic: the pipeline is still in the map of the
  -- eager import, or an answer of GitLab that a tick asked for since then said that it is not running,
  -- and an import of this answer, with its status, into the database succeeded.
  pub added-kept :
      (intervals : PullIntervalsConfig) (s0 s : S) (all eager : Bool) (fresh : FreshPipelines)
      (id : ℤ) (project : String) (c d : PipelinesFetcher S)
      → new_pipelines_fetcher intervals s0 ≡ ok c
      → ImportSteps c (importing all eager fresh s)
      → (after : ImportSteps (importing all eager (add_fresh id project fresh) s) d)
      → let q : QualifiedPipelineId = record { project = project; id = id } in
        In (fresh.next_pointer, q) (fresh_of d).entries
        ⊎ ((answers : Answers) × AskedOn after answers × Recorded S conf answers q)
  added-kept intervals s0 s all eager fresh id project c d e before after =
      let h = ImportSteps-IsAllocated before (new-IsAllocated intervals s0 c e) in
      let (allocated, there, others) = add_fresh-IsAllocated id project fresh h in
      steps-keep after allocated _ there
