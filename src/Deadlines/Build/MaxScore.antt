-- ===== src/Deadlines/Build/MaxScore.antt =====
-- The maximal scores that buildScoringGroups computes.
use text.Mathlib.TextEquality.{eq_iff}
use notmanytask.Base.{
  ℕ, String, ◌≡◌, ◌≢◌, refl, sym, ap, ◌∙◌, subst, inl, inr, Bool, true, false, ◌&&◌, Option, none,
  some, List, [], ◌∷◌, arith, ℤ, pos, eqb_ℤ, eqb, eqb_iff, int_add, ◌==◌, Dict, lookup,
  lookup-insert, lookup-cons, lookup-nil, NoRepeat, string_eq, get_elem?, set, get_elem?-set_self,
  get_elem?-set_ne, Bool-cases, if◌then◌else◌,
}
use notmanytask.Base.Errors.{ok}
use notmanytask.Deadlines.Types.{TaskGroup, ScoringGroup, Deadlines}
use notmanytask.Deadlines.Build.{
  get_scoring_group, or_zero, sum_scores, add_max_score, max_scores, write_max_scores,
  write_max_score, index_scoring, with_groups, build_scoring_groups,
}
use notmanytask.Deadlines.Build.Index.{
  Indexed, AllNamed, index_scoring-Indexed, max_scores-AllNamed, max_scores-NoRepeat,
}

abbrev pub is_at : ℕ → Option ℕ → Bool
is_at i none = false
is_at i (some j) = eqb i j

module _ {W : Type 0} where
  -- A group of assignments counts for the scoring group named `k`, which states no maximum.
  abbrev pub counts_for : String → Option (ScoringGroup W) → Bool
  counts_for k none = false
  counts_for k (some g) = g.name == k && eqb_ℤ g.max_score (pos 0)

  -- The sum of the scores of all tasks that count for `k`, if any group does.
  abbrev pub total_for : Deadlines W → String → List TaskGroup → Option ℤ → Option ℤ
  total_for d k [] total = total
  total_for d k (a ∷ as') total = total_for d k as' (
      if counts_for k (get_scoring_group d a)
      then some (int_add (or_zero total) (sum_scores (pos 0) a.tasks))
      else total)

  total_for-eq-max_scores :
      (d : Deadlines W) (k : String) (as' : List TaskGroup) (m : Dict String ℤ)
      → lookup k (max_scores d as' m) ≡ total_for d k as' (lookup k m)
  unfolding max_scores
  total_for-eq-max_scores d k [] m = refl
  total_for-eq-max_scores d k (a ∷ as') m =
      total_for-eq-max_scores d k as' _ ∙ ap (total_for d k as') (step (get_scoring_group d a))
    where
      step :
          (o : Option (ScoringGroup W))
          → lookup k (add_max_score o a m) ≡ (
              if counts_for k o
              then some (int_add (or_zero (lookup k m)) (sum_scores (pos 0) a.tasks))
              else lookup k m)
      step none = refl
      step (some g) = elim (Bool-cases (eqb_ℤ g.max_score (pos 0))) [
        | inl nought ↦ rw nought (
            rw lookup-insert (elim (Bool-cases (g.name == k)) [
              | inl same ↦ rw same (rw ((eq_iff g.name k).0 same))
              | inr other ↦ rw other
            ]))
        | inr given ↦
            rw given (elim (Bool-cases (g.name == k)) [ inl same ↦ rw same | inr other ↦ rw other ])
      ]

  abbrev pub with_max : ScoringGroup W → Option ℤ → ScoringGroup W
  with_max g none = g
  with_max g (some v) = record g { max_score = v }

  -- What becomes of the group at index `i`, if the map of totals is `m`: only the group that its
  -- name's pointer points at is written.
  abbrev pub written :
      Dict String ℕ → Dict String ℤ → ℕ → Option (ScoringGroup W) → Option (ScoringGroup W)
  written groups m i none = none
  written groups m i (some g) =
      some (if is_at i (lookup g.name groups) then with_max g (lookup g.name m) else g)

  -- The same group by what the assignments add up to.
  abbrev pub rescored :
      Deadlines W → List TaskGroup → ℕ → Option (ScoringGroup W) → Option (ScoringGroup W)
  rescored d as' i none = none
  rescored d as' i (some g) =
      some
        (if is_at i (lookup g.name d.groups) then with_max g (total_for d g.name as' none) else g)

  rescored-eq-written :
      (d : Deadlines W) (as' : List TaskGroup) (i : ℕ) (o : Option (ScoringGroup W))
      → written d.groups (max_scores d as' []) i o ≡ rescored d as' i o
  rescored-eq-written d as' i none = refl
  rescored-eq-written d as' i (some g) = rw (total_for-eq-max_scores, lookup-nil)

  Indexed-write :
      (gs : List (ScoringGroup W)) (groups : Dict String ℕ) (j : ℕ) (g : ScoringGroup W) (v : ℤ)
      → get_elem? gs j ≡ some g
      → Indexed gs groups
      → Indexed (set gs j (record g { max_score = v })) groups
  Indexed-write gs groups j g v here h = record {
    at = λ k i e.
        let (g', there, named) = h.at k i e in
        elim (Bool-cases (eqb j i)) [
          | inl same ↦
              let p : j ≡ i = (eqb_iff j i).0 same in
              let q : g ≡ g' = cc in
              (
                record g { max_score = v },
                subst
                    (λ n.
                      get_elem? (set gs j (record g { max_score = v })) n
                      ≡ some (record g { max_score = v }))
                    p (get_elem?-set_self gs j _ g here),
                ap (λ (x : ScoringGroup W). x.name) q ∙ named,
              )
          | inr other ↦
              (g', get_elem?-set_ne gs j i _ (λ p. cc (other, (eqb_iff j i).1 p)) ∙ there, named)
        ];
  }

  -- One write, seen from the index written to, and from any other.
  written-here :
      (gs : List (ScoringGroup W)) (groups : Dict String ℕ) (m : Dict String ℤ) (k : String) (v : ℤ)
      (j : ℕ) (g : ScoringGroup W)
      → get_elem? gs j ≡ some g
      → g.name ≡ k
      → lookup k groups ≡ some j
      → lookup k m ≡ none
      → written groups m j (get_elem? (set gs j (record g { max_score = v })) j)
        ≡ written groups ((k, v) ∷ m) j (get_elem? gs j)
  written-here gs groups m k v j g here named pointer fresh =
      let e1 : lookup g.name groups ≡ some j = cc in
      let e2 : lookup g.name m ≡ none = cc in
      let e3 : (k == g.name) ≡ true = (eq_iff k g.name).1 (sym named) in
      rw (get_elem?-set_self gs j (record g { max_score = v }) g here, here)
        (simp (lookup-cons, e1, e2, e3, (eqb_iff j j).1 refl))

  written-elsewhere :
      (groups : Dict String ℕ) (m : Dict String ℤ) (k : String) (v : ℤ) (i j : ℕ)
      (o : Option (ScoringGroup W))
      → lookup k groups ≡ some j
      → j ≢ i
      → written groups m i o ≡ written groups ((k, v) ∷ m) i o
  written-elsewhere groups m k v i j none pointer ne = refl
  written-elsewhere groups m k v i j (some g) pointer ne = elim (Bool-cases (k == g.name)) [
    | inl same ↦
        let e1 : lookup g.name groups ≡ some j =
          ap (λ x. lookup x groups) (sym ((eq_iff k g.name).0 same)) ∙ pointer in
        let e2 : eqb i j ≡ false = ground arith in simp (e1, e2)
    | inr other ↦ simp (lookup-cons, other)
  ]

  write_max_scores-cons :
      (groups : Dict String ℕ) (k : String) (v : ℤ) (m : Dict String ℤ) (gs : List (ScoringGroup W))
      (j : ℕ) (g : ScoringGroup W)
      → lookup k groups ≡ some j
      → get_elem? gs j ≡ some g
      → write_max_scores groups ((k, v) ∷ m) gs
        ≡ write_max_scores groups m (set gs j (record g { max_score = v }))
  unfolding write_max_scores
  write_max_scores-cons groups k v m gs j g pointer here =
      rw (pointer, write_max_scores)
        (ap (λ o. write_max_scores groups m (write_max_score gs j o v)) here)

  -- The last loop writes every total where its key's pointer points, and panics on no key.
  written-write_max_scores :
      (groups : Dict String ℕ) (m : Dict String ℤ) (gs : List (ScoringGroup W))
      → Indexed gs groups
      → AllNamed groups m
      → NoRepeat m
      → (gs' : List (ScoringGroup W)) × (write_max_scores groups m gs ≡ ok gs')
        × ((i : ℕ) → get_elem? gs' i ≡ written groups m i (get_elem? gs i))
  unfolding write_max_scores
  written-write_max_scores groups [] gs h named once = (gs, refl, λ i. unwritten i (get_elem? gs i))
    where
      unwritten : (i : ℕ) (o : Option (ScoringGroup W)) → o ≡ written groups [] i o
      unwritten i none = refl
      unwritten i (some g) =
          rw lookup-nil
            (elim (Bool-cases (is_at i (lookup g.name groups))) [ inl e ↦ rw e | inr e ↦ rw e ])
  written-write_max_scores groups ((k, v) ∷ m) gs h ((j, pointer), named) (fresh, once) =
      let (g, here, name) = h.at k j pointer in
      let gs1 : List (ScoringGroup W) = set gs j (record g { max_score = v }) in
      let (gs', run, rest) =
        written-write_max_scores groups m gs1 (Indexed-write gs groups j g v here h) named once in
      (
        gs',
        write_max_scores-cons groups k v m gs j g pointer here ∙ run,
        λ i. rest i ∙ elim (Bool-cases (eqb j i)) [
          | inl same ↦
              subst
                (λ n.
                  written groups m n (get_elem? gs1 n)
                  ≡ written groups ((k, v) ∷ m) n (get_elem? gs n))
                ((eqb_iff j i).0 same) (written-here gs groups m k v j g here name pointer fresh)
          | inr other ↦
              let ne : j ≢ i = λ p. cc (other, (eqb_iff j i).1 p) in
              rw (get_elem?-set_ne gs j i (record g { max_score = v }) ne)
                (written-elsewhere groups m k v i j (get_elem? gs i) pointer ne)
        ],
      )

  -- buildScoringGroups always returns, with the assignments as they were, and it sets the maximum of
  -- the scoring group at every index to the sum of the tasks that count for it, where the group
  -- states no maximum, some assignments use it, and no later group has its name; every other group
  -- stays as it was.
  pub build_scoring_groups_lem :
      (d : Deadlines W)
      → (e : Deadlines W) × (build_scoring_groups d ≡ ok e)
        × (e.assignments ≡ d.assignments)
        × ((i : ℕ)
            → get_elem? e.scoring.groups i
              ≡ rescored (index_scoring d) d.assignments i (get_elem? d.scoring.groups i))
  unfolding build_scoring_groups
  build_scoring_groups_lem d =
      let e = index_scoring d in
      let h = index_scoring-Indexed d in
      let (gs, run, at) =
        written-write_max_scores e.groups (max_scores e e.assignments []) e.scoring.groups h
          (max_scores-AllNamed e e.assignments [] h tt)
          (max_scores-NoRepeat e e.assignments [] tt) in
      (
        with_groups e gs,
        rw run,
        refl,
        λ i. at i ∙ rescored-eq-written e d.assignments i (get_elem? d.scoring.groups i),
      )
