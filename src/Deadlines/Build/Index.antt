-- ===== src/Deadlines/Build/Index.antt =====
-- The maps that buildScoringGroups fills: what their pointers and keys stand for.
use text.Mathlib.TextEquality.{eq_iff}
use notmanytask.Base.{
  ℕ, suc, ◌+◌, String, ◌≡◌, refl, ap, ◌∙◌, subst, inl, inr, Option, none, some, List, [], ◌∷◌,
  arith, ℤ, pos, ◌==◌, Dict, lookup, insert, lookup-insert, lookup-nil, NoRepeat, insert-NoRepeat,
  eqb_ℤ, string_eq, get_elem?, Bool-cases, if◌then◌else◌,
}
use notmanytask.Deadlines.Types.{TaskGroup, ScoringGroup, Deadlines}
use notmanytask.Deadlines.Build.{
  index_groups, find_scoring_group, deref, get_scoring_group, add_max_score, max_scores,
  index_scoring,
}

module _ {W : Type 0} where
  -- What a pointer of the map points at has the name under which the map holds it.
  pub record Indexed (gs : List (ScoringGroup W)) (groups : Dict String ℕ) : Type 0 where
    pub at :
        (k : String) (i : ℕ)
        → lookup k groups ≡ some i
        → (g : ScoringGroup W) × (get_elem? gs i ≡ some g) × (g.name ≡ k)

  Indexed-insert :
      (gs : List (ScoringGroup W)) (groups : Dict String ℕ) (i : ℕ) (g : ScoringGroup W)
      → get_elem? gs i ≡ some g
      → Indexed gs groups
      → Indexed gs (insert g.name i groups)
  Indexed-insert gs groups i g here h = record {
    at = λ k j e. elim (Bool-cases (g.name == k)) [
      | inl same ↦
          (g, cc (here, lookup-insert g.name k i groups, same, e), (eq_iff g.name k).0 same)
      | inr other ↦ h.at k j (cc (lookup-insert g.name k i groups, other, e))
    ];
  }

  -- `i` groups stand before the ones that are left.
  Indexed-index_groups :
      (gs rest : List (ScoringGroup W)) (i : ℕ) (groups : Dict String ℕ)
      → ((j : ℕ) (g : ScoringGroup W) → get_elem? rest j ≡ some g → get_elem? gs (i + j) ≡ some g)
      → Indexed gs groups
      → Indexed gs (index_groups i rest groups)
  unfolding index_groups
  Indexed-index_groups gs [] i groups tail h = h
  Indexed-index_groups gs (g ∷ rest) i groups tail h =
      Indexed-index_groups gs rest (suc i) (insert g.name i groups)
        (λ j g' e. let p : suc i + j ≡ i + suc j = omega arith in rw p (tail (suc j) g' e))
        (Indexed-insert gs groups i g
          (let p : i ≡ i + 0 = omega arith in ap (get_elem? gs) p ∙ tail 0 g refl) h)

  pub index_scoring-Indexed :
      (d : Deadlines W) → Indexed (index_scoring d).scoring.groups (index_scoring d).groups
  unfolding index_scoring
  index_scoring-Indexed d =
      Indexed-index_groups d.scoring.groups d.scoring.groups 0 []
        (λ j g e. let p : 0 + j ≡ j = omega arith in rw p e)
        (record { at = λ k i e. absurd (cc (lookup-nil {V = ℕ} k, e)) })

-- Every key of a map of totals is the name of a group that the map of pointers holds.
abbrev pub AllNamed : Dict String ℕ → Dict String ℤ → Type 0
AllNamed groups [] = Unit
AllNamed groups ((k, v) ∷ m) = ((i : ℕ) × (lookup k groups ≡ some i)) × AllNamed groups m

insert-AllNamed :
    (groups : Dict String ℕ) (k : String) (v : ℤ) (m : Dict String ℤ) (i : ℕ)
    → lookup k groups ≡ some i
    → AllNamed groups m
    → AllNamed groups (insert k v m)
unfolding insert
insert-AllNamed groups k v [] i e h = ((i, e), tt)
insert-AllNamed groups k v ((j, w) ∷ m) i e (named, h) = elim (Bool-cases (j == k)) [
  | inl same ↦ rw same ((i, e), h)
  | inr other ↦ rw other (named, insert-AllNamed groups k v m i e h)
]

module _ {W : Type 0} where
  -- The group that GetScoringGroup finds is held under its own name.
  get_scoring_group_named :
      (d : Deadlines W) (a : TaskGroup) (g : ScoringGroup W)
      → Indexed d.scoring.groups d.groups
      → get_scoring_group d a ≡ some g
      → (i : ℕ) × (lookup g.name d.groups ≡ some i)
  unfolding get_scoring_group
  get_scoring_group_named d a g h e = go (find_scoring_group d a) refl e
    where
      key : String
      key = if a.group == "" then d.scoring.default_group else a.group

      go :
          (o : Option ℕ)
          → find_scoring_group d a ≡ o
          → deref d.scoring.groups o ≡ some g
          → (i : ℕ) × (lookup g.name d.groups ≡ some i)
      go none p q = absurd (cc)
      go (some i) p q =
          let (g', here, named) = h.at key i p in
          let same : key ≡ g.name = cc in (i, subst (λ k. lookup k d.groups ≡ some i) same p)

  pub max_scores-AllNamed :
      (d : Deadlines W) (as' : List TaskGroup) (m : Dict String ℤ)
      → Indexed d.scoring.groups d.groups
      → AllNamed d.groups m
      → AllNamed d.groups (max_scores d as' m)
  unfolding max_scores
  max_scores-AllNamed d [] m h named = named
  max_scores-AllNamed d (a ∷ as') m h named =
      max_scores-AllNamed d as' _ h (go (get_scoring_group d a) refl)
    where
      go :
          (o : Option (ScoringGroup W))
          → get_scoring_group d a ≡ o
          → AllNamed d.groups (add_max_score o a m)
      go none p = named
      go (some g) p = elim (Bool-cases (eqb_ℤ g.max_score (pos 0))) [
        | inl nought ↦ rw nought (
            let (i, e) = get_scoring_group_named d a g h p in
            insert-AllNamed d.groups g.name _ m i e named)
        | inr given ↦ rw given named
      ]

  pub max_scores-NoRepeat :
      (d : Deadlines W) (as' : List TaskGroup) (m : Dict String ℤ)
      → NoRepeat m
      → NoRepeat (max_scores d as' m)
  unfolding max_scores
  max_scores-NoRepeat d [] m h = h
  max_scores-NoRepeat d (a ∷ as') m h = max_scores-NoRepeat d as' _ (go (get_scoring_group d a))
    where
      go : (o : Option (ScoringGroup W)) → NoRepeat (add_max_score o a m)
      go none = h
      go (some g) = elim (Bool-cases (eqb_ℤ g.max_score (pos 0))) [
        | inl nought ↦ rw nought (insert-NoRepeat g.name _ m h)
        | inr given ↦ rw given h
      ]
