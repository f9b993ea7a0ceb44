-- ===== src/Gitlab/Pipelines/Fresh.antt =====
-- Which pipelines are imported eagerly again.
use text.Mathlib.TextEquality.{eq_iff}
use notmanytask.Base.{
  ℕ, ◌<◌, String, ◌≡◌, ◌≢◌, refl, sym, ap, ◌∙◌, Bool-cases, ◌⊎◌, inl, inr, ◌↔◌, Bool, true, false,
  not, List, [], ◌∷◌, ◌++◌, ℤ, eqb, eqb_iff, string_eq, select, In, In-select, In-append,
  In-append_left, In-append_right, arith, if◌then◌else◌,
}
use notmanytask.Base.Errors.{Result, ok, err, panic, wrapped-ok, ◌>>=◌, bind-ok, ok_inj}
use notmanytask.Config.{GitLabConfig}
use notmanytask.Models.{status_running}
use notmanytask.Database.Gorm.{Gorm}
use notmanytask.Gitlab.Names.{make_project_with_namespace}
use notmanytask.Gitlab.Pipelines.{
  PipelineInfo, QualifiedPipelineId, FreshPipelines, add_fresh, is_over, delete_pointers,
  store_pipeline, store_fetched, unless_panic, fetch, fetch_entries, fetch_fresh_pipelines,
}

abbrev pub Entry : Type 0
Entry = ℕ × QualifiedPipelineId

-- No two entries have the same pointer, and the next one is new.
pub record IsAllocated (fresh : FreshPipelines) : Type 0 where
  pub below : (e : Entry) → In e fresh.entries → e.0 < fresh.next_pointer
  pub unique : (a b : Entry) → In a fresh.entries → In b fresh.entries → a.0 ≡ b.0 → a ≡ b

In-single : {A : Type 0} (a b : A) → In a (b ∷ []) → a ≡ b
In-single a b (inl e) = e
In-single a b (inr bad) = absurd bad

-- AddFresh keeps the pointers apart where they were, and the map holds the new pipeline and all others.
pub add_fresh-IsAllocated :
    (id : ℤ) (project : String) (fresh : FreshPipelines)
    → IsAllocated fresh
    → IsAllocated (add_fresh id project fresh)
      × In
          (fresh.next_pointer, record { project = project; id = id })
          (add_fresh id project fresh).entries
      × ((e : Entry) → In e fresh.entries → In e (add_fresh id project fresh).entries)
unfolding add_fresh
add_fresh-IsAllocated id project fresh h = (
  record {
    below = λ e i. elim (In-append e fresh.entries (new' ∷ []) i) [
      | inl j ↦ let low = h.below e j in omega arith
      | inr j ↦ let p = ap (λ (x : Entry). x.0) (In-single e new' j) in omega arith
    ];
    unique = λ a b i j same. elim (In-append a fresh.entries (new' ∷ []) i) [
      | inl i' ↦ elim (In-append b fresh.entries (new' ∷ []) j) [
        | inl j' ↦ h.unique a b i' j' same
        | inr j' ↦
            let low = h.below a i' in
            let p = ap (λ (x : Entry). x.0) (In-single b new' j') in absurd (omega arith)
      ]
      | inr i' ↦ elim (In-append b fresh.entries (new' ∷ []) j) [
        | inl j' ↦
            let low = h.below b j' in
            let p = ap (λ (x : Entry). x.0) (In-single a new' i') in absurd (omega arith)
        | inr j' ↦ In-single a new' i' ∙ sym (In-single b new' j')
      ]
    ];
  },
  In-append_right new' fresh.entries (new' ∷ []) (inl refl),
  λ e i. In-append_left e fresh.entries (new' ∷ []) i,
)
  where
    new' : Entry
    new' = (fresh.next_pointer, record { project = project; id = id })

In-delete_pointers :
    (ps : List ℕ) (es : List Entry) (e : Entry)
    → In e (delete_pointers ps es) ↔ (In e es × ((p : ℕ) → In p ps → e.0 ≢ p))
unfolding delete_pointers
In-delete_pointers [] es e = (λ i. (i, λ p bad. absurd bad), λ i. i.0)
In-delete_pointers (p ∷ ps) es e =
    let left = select (λ (x : Entry). not (eqb x.0 p)) es in
    (
      λ i.
          let (j, ne) = (In-delete_pointers ps left e).0 i in
          let (k, t) = (In-select (λ (x : Entry). not (eqb x.0 p)) e es).0 j in
          (k, λ r m. elim m [ inl q ↦ λ same. ground (arith, eqb_iff e.0 p) | inr m' ↦ ne r m' ]),
      λ (i, ne). (In-delete_pointers ps left e).1 (
        (In-select (λ (x : Entry). not (eqb x.0 p)) e es).1
            (i, (let z = ne p (inl refl) in ground (arith, eqb_iff e.0 p))),
        λ r m. ne r (inr m),
      ),
    )

-- GitLab tells of the pipeline, and that it is not running.
abbrev pub IsOver : GitLabConfig → (String → ℤ → Result PipelineInfo) → QualifiedPipelineId → Type 0
IsOver conf get_pipeline q =
    (info : PipelineInfo) × (get_pipeline (make_project_with_namespace conf q.project) q.id
      ≡ ok info)
    × (info.status ≢ status_running)

-- A pointer is among those to delete, or not.
In-dec : (p : ℕ) (ps : List ℕ) → In p ps ⊎ ¬ In p ps
In-dec p [] = inr (λ bad. bad)
In-dec p (r ∷ ps) = elim (Bool-cases (eqb p r)) [
  | inl e ↦ inl (inl ((eqb_iff p r).0 e))
  | inr ne ↦ elim (In-dec p ps) [
    | inl i ↦ inl (inr i)
    | inr out ↦ inr (λ i. elim i [ inl e ↦ ground (arith, eqb_iff p r) | inr j ↦ out j ])
  ]
]

In-removed :
    (b : Bool) (p r : ℕ) (removed : List ℕ)
    → In r (if b then removed ++ (p ∷ []) else removed)
    → In r removed ⊎ ((r ≡ p) × (b ≡ true))
In-removed true p r removed i = elim (In-append r removed (p ∷ []) i) [
  | inl j ↦ inl j
  | inr j ↦ inr (In-single r p j, refl)
]
In-removed false p r removed i = inl i

-- The import of one pipeline came to an answer, which is stored, that it is over.
abbrev pub Finished :
    (S : Type 0) ⦃g : Gorm S⦄
    → GitLabConfig
    → (String → ℤ → Result PipelineInfo)
    → QualifiedPipelineId
    → Type 0
Finished S conf get_pipeline q =
    (s : S) × (is_over (fetch conf get_pipeline q.id q.project s).0 ≡ true)

module _ {S : Type 0} ⦃g : Gorm S⦄ (conf : GitLabConfig)
    (get_pipeline : String → ℤ → Result PipelineInfo) where
  over_fetched :
      (project : String) (r : Result PipelineInfo) (s : S)
      → is_over (store_fetched conf get_pipeline project r s).0 ≡ true
      → (info : PipelineInfo) × (r ≡ ok info) × (info.status ≢ status_running)
  unfolding is_over
  over_fetched project (err e) s over = absurd (cc)
  over_fetched project panic s over = absurd (cc)
  over_fetched project (ok info) s over = stored (store_pipeline project info s).0 over
    where
      stored :
          (r : Result (Unit {0}))
          → is_over (r >>= λ _. ok info) ≡ true
          → (i : PipelineInfo) × (ok info ≡ ok i) × (i.status ≢ status_running)
      stored (ok _) o = (info, refl, λ z. cc ((eq_iff info.status status_running).1 z, o))
      stored (err e) o = absurd (cc)
      stored panic o = absurd (cc)

  fetch-IsOver :
      (q : QualifiedPipelineId) (s : S)
      → is_over (fetch conf get_pipeline q.id q.project s).0 ≡ true
      → IsOver conf get_pipeline q
  unfolding fetch
  fetch-IsOver q s over =
      let (info, e, ne) = over_fetched q.project _ s over in (info, wrapped-ok _ _ info e, ne)

  unless_panic-ok :
      {A B : Type 0} (r : Result A) (s s' : S) (rest : Result B × S) (b : B)
      → unless_panic r s rest ≡ (ok b, s')
      → rest ≡ (ok b, s')
  unless_panic-ok (ok a) s s' rest b e = e
  unless_panic-ok (err x) s s' rest b e = e
  unless_panic-ok panic s s' rest b e = absurd (cc (ap (λ p. p.0) e))

  -- Only entries whose pipeline is over are collected.
  fetch_entries-Finished :
      (es : List Entry) (removed ps : List ℕ) (s s' : S)
      → fetch_entries conf get_pipeline es removed s ≡ (ok ps, s')
      → (p : ℕ) → In p ps
      → In p removed ⊎ ((q : QualifiedPipelineId) × In (p, q) es × Finished S conf get_pipeline q)
  unfolding fetch_entries
  fetch_entries-Finished [] removed ps s s' e p i =
      let same : removed ≡ ps = ok_inj removed ps (ap (λ x. x.0) e) in inl (rw same i)
  fetch_entries-Finished ((p', q') ∷ es) removed ps s s' e p i =
      let step = fetch conf get_pipeline q'.id q'.project s in
      let e1 = unless_panic-ok step.0 step.1 s' _ ps e in
      elim (fetch_entries-Finished es _ ps step.1 s' e1 p i) [
        | inr (q, j, over) ↦ inr (q, inr j, over)
        | inl j ↦ elim (In-removed (is_over step.0) p' p removed j) [
          | inl k ↦ inl k
          | inr (same, over) ↦ inr (q', inl (ap (λ n. (n, q')) same), (s, over))
        ]
      ]

  pub fetch_fresh_pipelines_sweeps :
      (fresh fresh' : FreshPipelines) (s s' : S)
      → IsAllocated fresh
      → fetch_fresh_pipelines conf get_pipeline fresh s ≡ (ok fresh', s')
      → IsAllocated fresh'
        × ((e : Entry) → In e fresh'.entries → In e fresh.entries)
        × ((e : Entry)
            → In e fresh.entries
            → In e fresh'.entries ⊎ Finished S conf get_pipeline e.1)
  unfolding fetch_fresh_pipelines
  fetch_fresh_pipelines_sweeps fresh fresh' s s' h e =
      let walk = fetch_entries conf get_pipeline fresh.entries [] s in
      let (ps, e1, e2) = bind-ok walk.0 _ fresh' (ap (λ x. x.0) e) in
      let same : fresh' ≡ record fresh { entries = delete_pointers ps fresh.entries } =
        sym (ok_inj _ fresh' e2) in
      let kept : (a : Entry) → In a (delete_pointers ps fresh.entries) → In a fresh.entries =
        λ a i. ((In-delete_pointers ps fresh.entries a).0 i).0 in
      rw same (
        record {
          below = λ a i. h.below a (kept a i);
          unique = λ a b i j. h.unique a b (kept a i) (kept b j);
        },
        kept,
        λ a i. elim (In-dec a.0 ps) [
          | inl m ↦
              elim (fetch_entries-Finished fresh.entries [] ps s walk.1 (λ k. (e1 k, walk.1)) a.0
                m) [
                  | inl bad ↦ absurd bad
                  | inr (q, j, over) ↦
                      let it : a ≡ (a.0, q) = h.unique a (a.0, q) i j refl in inr (rw it over)
                ]
          | inr out ↦
              inl ((In-delete_pointers ps fresh.entries a).1 (i, λ p m same'. out (rw same' m)))
        ],
      )

  -- If the map's pointers are apart and the eager import runs through, then afterwards the map's
  -- pointers are apart as before, it holds no new entry, and it still holds every pipeline that
  -- GitLab did not report as over: those that are running and those that could not be read.
  pub fetch_fresh_pipelines-keeps :
      (fresh fresh' : FreshPipelines) (s s' : S)
      → IsAllocated fresh
      → fetch_fresh_pipelines conf get_pipeline fresh s ≡ (ok fresh', s')
      → IsAllocated fresh'
        × ((e : Entry) → In e fresh'.entries → In e fresh.entries)
        × ((e : Entry)
            → In e fresh.entries
            → ((info : PipelineInfo)
                → get_pipeline (make_project_with_namespace conf e.1.project) e.1.id ≡ ok info
                → info.status ≡ status_running)
            → In e fresh'.entries)
  fetch_fresh_pipelines-keeps fresh fresh' s s' h e =
      let (allocated, nothing_new, left) = fetch_fresh_pipelines_sweeps fresh fresh' s s' h e in
      (
        allocated,
        nothing_new,
        λ a i running. elim (left a i) [
          | inl j ↦ j
          | inr (s1, over) ↦
              let (info, told, ne) = fetch-IsOver a.1 s1 over in absurd (ne (running info told))
        ],
      )
