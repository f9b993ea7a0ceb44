-- ===== src/Gitlab/Pipelines.antt =====
-- internal/gitlab/pipelines.go: pipelines are copied into the database, some of them eagerly.
pub mod Fresh
pub mod All
pub mod Run
use notmanytask.Base.{
  ℕ, suc, String, Bool, true, false, Option, none, some, List, [], ◌∷◌, ◌++◌, ℤ, eqb, ◌==◌,
  string_eq, select, not, if◌then◌else◌,
}
use notmanytask.Base.Errors.{Result, ok, err, panic, wrapped, deref, ◌>>=◌}
use notmanytask.Base.Time.{Time}
use notmanytask.Config.{GitLabConfig}
use notmanytask.Models.{Pipeline, PipelineStatus, status_running}
use notmanytask.Database.Gorm.{Gorm}
use notmanytask.Database.Submits.{add_pipeline}
use notmanytask.Gitlab.Names.{make_project_with_namespace, parse_task_from_branch}
use notmanytask.Gitlab.Calls.{Calls, call}
use notmanytask.Gitlab.Paging.{Pages, each_page}

-- gitlab.PipelineInfo, as far as it is read.
pub record PipelineInfo : Type 0 where
  pub id : ℤ
  pub ref : String
  pub status : PipelineStatus
  pub created_at : Option Time

pub record QualifiedPipelineId : Type 0 where
  pub project : String
  pub id : ℤ

-- The map `fresh` has pointers for keys, and every AddFresh allocates a new one.
pub record FreshPipelines : Type 0 where
  pub next_pointer : ℕ
  pub entries : List (ℕ × QualifiedPipelineId)

unfoldable pub add_fresh : ℤ → String → FreshPipelines → FreshPipelines
add_fresh id project fresh = record {
  next_pointer = suc fresh.next_pointer;
  entries = fresh.entries ++ ((fresh.next_pointer, record { project = project; id = id }) ∷ []);
}

-- Whether the eager import of a pipeline is over.
unfoldable pub is_over : Result PipelineInfo → Bool
is_over (ok info) = not (info.status == status_running)
is_over (err e) = false
is_over panic = false

unfoldable pub delete_pointers :
    List ℕ → List (ℕ × QualifiedPipelineId) → List (ℕ × QualifiedPipelineId)
delete_pointers [] entries = entries
delete_pointers (p ∷ ps) entries = delete_pointers ps (select (λ e. not (eqb e.0 p)) entries)

module _ {S : Type 0} ⦃g : Gorm S⦄ where
  -- addPipeline follows the pointer CreatedAt.
  unfoldable pub store_pipeline : String → PipelineInfo → S → Result (Unit {0}) × S
  unfolding parse_task_from_branch add_pipeline
  store_pipeline project info s = elim info.created_at [
    | none ↦ (panic, s)
    | some started ↦
        add_pipeline
          (record {
            id = info.id;
            project = project;
            task = parse_task_from_branch info.ref;
            status = info.status;
            started_at = started;
          })
          s
  ]

  -- A panic in a callback ends the walk.
  abbrev pub unless_panic : {A B : Type 0} → Result A → S → Result B × S → Result B × S
  unless_panic (ok a) s rest = rest
  unless_panic (err e) s rest = rest
  unless_panic panic s rest = (panic, s)

  -- `get_pipeline` is GitLab's answer for a project's path and a pipeline's id.
  module _ (conf : GitLabConfig) (get_pipeline : String → ℤ → Result PipelineInfo) where
    abbrev pub store_fetched : String → Result PipelineInfo → S → Result PipelineInfo × S
    store_fetched project (ok info) s =
        let (res, s') = store_pipeline project info s in ((do _ ← res; ok info), s')
    store_fetched project (err e) s = (err e, s)
    store_fetched project panic s = (panic, s)

    unfoldable pub fetch : ℤ → String → S → Result PipelineInfo × S
    unfolding store_pipeline make_project_with_namespace
    fetch id project s =
        store_fetched project
          (wrapped "Failed to fetch pipeline"
            (get_pipeline (make_project_with_namespace conf project) id))
          s

    -- fresh.Range: the keys to remove, in the order of the visits. A panic ends the program.
    unfoldable pub fetch_entries : List (ℕ × QualifiedPipelineId) → List ℕ → S → Result (List ℕ) × S
    unfolding fetch is_over
    fetch_entries [] removed s = (ok removed, s)
    fetch_entries ((p, q) ∷ rest) removed s =
        let (info, s') = fetch q.id q.project s in
        let removed' = if is_over info then removed ++ (p ∷ []) else removed in
        unless_panic info s' (fetch_entries rest removed' s')

    unfoldable pub fetch_fresh_pipelines : FreshPipelines → S → Result FreshPipelines × S
    unfolding fetch_entries delete_pointers
    fetch_fresh_pipelines fresh s =
        let (removed, s') = fetch_entries fresh.entries [] s in
        ((do ps ← removed; ok (record fresh { entries = delete_pointers ps fresh.entries })), s')

  -- The pipelines of one page; what cannot be stored is passed over.
  unfoldable pub store_page : String → List PipelineInfo → S → Result (Unit {0}) × S
  unfolding store_pipeline
  store_page project [] s = (ok tt, s)
  store_page project (info ∷ infos) s =
      let (res, s') = store_pipeline project info s in
      elim res [ panic ↦ (panic, s') | _ ↦ store_page project infos s' ]

  -- The callback of fetchAllPipelines, for one project.
  unfoldable pub store_project :
      ℕ → (ℕ → Result (List PipelineInfo × Pages)) → String → Calls S (Unit {0})
  unfolding store_page each_page
  store_project fuel list project = each_page list (λ infos. call (store_page project infos)) fuel 0
