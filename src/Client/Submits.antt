-- ===== src/Client/Submits.antt =====
-- Who is listed by LoadSuccessfulSubmits.
use notmanytask.Base.{
  String, ◌≡◌, refl, ap, ◌∙◌, ◌↔◌, inl, inr, true, some, List, [], ◌∷◌, In, In-append,
  In-append_left, In-append_right, subst, Bool-cases,
}
use notmanytask.Base.Errors.{ok, deref, bind-ok, ok_inj, deref-ok}
use notmanytask.Scorer.Types.{ScoredTask, ScoredTaskGroup, ScoredUser, UserScores, Standings}
use notmanytask.Client.{
  Transport, load_standings, is_solved, solved_tasks, solved_groups, solved_rows,
  load_successful_submits,
}

-- The user's row has a solved task of this name in one of its groups.
abbrev pub HasSolved : {W : Type 0} → String → ScoredUser → UserScores W → Type 0
HasSolved name u row =
    (group : ScoredTaskGroup) × (task : ScoredTask) × In group row.groups
    × In task group.tasks
    × (is_solved name task ≡ true)
    × (u ≡ row.user)

module _ {W : Type 0} (name : String) (u : ScoredUser) where
  solved_tasks-In :
      (row : UserScores W) (tasks : List ScoredTask)
      → In u (solved_tasks name row tasks)
        ↔ ((task : ScoredTask) × In task tasks × (is_solved name task ≡ true) × (u ≡ row.user))
  unfolding solved_tasks
  solved_tasks-In row [] = (λ i. absurd i, λ (t, i, _, _). absurd i)
  solved_tasks-In row (task ∷ tasks) = elim (Bool-cases (is_solved name task)) [
    | inl e ↦ rw e (
      λ i. elim i [
        | inl q ↦ (task, inl refl, e, q)
        | inr j ↦ let (t, k, s, q) = (solved_tasks-In row tasks).0 j in (t, inr k, s, q)
      ],
      λ (t, i, s, q). inl q,
    )
    | inr e ↦ rw e (
      λ i. let (t, k, s, q) = (solved_tasks-In row tasks).0 i in (t, inr k, s, q),
      λ (t, i, s, q). elim i [
        | inl p ↦ absurd (cc)
        | inr j ↦ (solved_tasks-In row tasks).1 (t, j, s, q)
      ],
    )
  ]

  solved_groups-In :
      (row : UserScores W) (groups : List ScoredTaskGroup)
      → In u (solved_groups name row groups) ↔ (
          (group : ScoredTaskGroup) × (task : ScoredTask) × In group groups
          × In task group.tasks
          × (is_solved name task ≡ true)
          × (u ≡ row.user))
  unfolding solved_groups
  solved_groups-In row [] = (λ i. absurd i, λ (g, t, i, _, _, _). absurd i)
  solved_groups-In row (group ∷ groups) = (
    λ i. elim (In-append u (solved_tasks name row group.tasks) (solved_groups name row groups) i) [
      | inl j ↦
          let (t, k, s, q) = (solved_tasks-In row group.tasks).0 j in (group, t, inl refl, k, s, q)
      | inr j ↦ let (g, t, h, k, s, q) = (solved_groups-In row groups).0 j in (g, t, inr h, k, s, q)
    ],
    λ (g, t, h, k, s, q). elim h [
      | inl p ↦ In-append_left u _ _ (
          (solved_tasks-In row group.tasks).1
            (t, subst (λ (x : ScoredTaskGroup). In t x.tasks) p k, s, q))
      | inr j ↦ In-append_right u _ _ ((solved_groups-In row groups).1 (g, t, j, k, s, q))
    ],
  )

  solved_rows-In :
      (rows : List (UserScores W))
      → In u (solved_rows name rows) ↔ ((row : UserScores W) × In row rows × HasSolved name u row)
  unfolding solved_rows
  solved_rows-In [] = (λ i. absurd i, λ (r, i, _). absurd i)
  solved_rows-In (row ∷ rows) = (
    λ i. elim (In-append u (solved_groups name row row.groups) (solved_rows name rows) i) [
      | inl j ↦ (row, inl refl, (solved_groups-In row row.groups).0 j)
      | inr j ↦ let (r, k, h) = (solved_rows-In rows).0 j in (r, inr k, h)
    ],
    λ (r, k, h). elim k [
      | inl p ↦ In-append_left u _ _ (
          (solved_groups-In row row.groups).1
            (subst (λ (x : UserScores W). HasSolved name u x) p h))
      | inr j ↦ In-append_right u _ _ ((solved_rows-In rows).1 (r, j, h))
    ],
  )

  -- If LoadSuccessfulSubmits succeeds, the service answered with standings, and the users that are
  -- listed are exactly those of a row that has a task of the asked name with the status "success"
  -- and points above zero.
  pub load_successful_submits-In :
      (t : Transport W) (group : String) (users : List ScoredUser)
      → load_successful_submits t group name ≡ ok users
      → (standings : Standings W) × (load_standings t group ≡ ok (some standings))
        × (In u users ↔ ((row : UserScores W) × In row standings.users × HasSolved name u row))
  unfolding load_successful_submits
  load_successful_submits-In t group users e =
      let (loaded, q, e1) = bind-ok (load_standings t group) _ users e in
      let (standings, r, e2) = bind-ok (deref loaded) _ users e1 in
      (
        standings,
        q ∙ ap ok (deref-ok loaded standings r),
        subst
            (λ us. In u us ↔ ((row : UserScores W) × In row standings.users × HasSolved name u row))
            (ok_inj _ users e2) (solved_rows-In standings.users),
      )
