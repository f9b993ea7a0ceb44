-- ===== src/Deadlines/Fetcher/Reload.antt =====
-- What the fetcher of internal/deadlines/fetcher.go holds after a reload.
use text.Mathlib.TextEquality.{eq_iff}
use notmanytask.Base.{
  String, ◌≡◌, ◌≢◌, refl, sym, ap, subst, ◌∙◌, ◌⊎◌, inl, inr, Option, none, some, List, [], ◌∷◌,
  ◌==◌, string_eq, Dict, lookup, insert, lookup-insert, lookup-nil, In, Bool-cases,
}
use notmanytask.Base.Errors.{Result, ok, err, panic, wrapped, bind-ok, wrapped-ok}
use notmanytask.Base.Float.{Float}
use notmanytask.Config.{GroupConfig}
use notmanytask.Deadlines.Types.{Deadlines}
use notmanytask.Deadlines.Fetcher.{
  Remote, Current, fetch, fetch_groups, swap_in, reload, group_deadlines,
}

module _ {W : Type 0} ⦃f : Float W⦄ (remote : Remote W) where
  -- The deadlines that stand in a map under a group's name are those that its address answers.
  abbrev pub IsFetched : (GroupConfig → Type 0) → String → Option (Deadlines W) → Type 0
  IsFetched Seen name none = (g : GroupConfig) → Seen g → g.name ≢ name
  IsFetched Seen name (some d) =
      (g : GroupConfig) × Seen g
      × (g.name ≡ name)
      × (fetch remote g.deadlines_url g.deadlines_format ≡ ok d)

  IsFetched-map :
      (S T : GroupConfig → Type 0) (name : String) (o : Option (Deadlines W))
      → ((g : GroupConfig) → S g → T g)
      → ((g : GroupConfig) → T g → S g)
      → IsFetched S name o
      → IsFetched T name o
  IsFetched-map S T name none to from h = λ g t. h g (from g t)
  IsFetched-map S T name (some d) to from (g, s, same, e) = (g, to g s, same, e)

  IsFetched-other :
      (g : GroupConfig) (S : GroupConfig → Type 0) (name : String) (o : Option (Deadlines W))
      → g.name ≢ name
      → IsFetched S name o
      → IsFetched (λ x. (x ≡ g) ⊎ S x) name o
  IsFetched-other g S name none ne h = λ x s. elim s [
    | inl e ↦ λ same. ne (ap (λ (y : GroupConfig). y.name) (sym e) ∙ same)
    | inr t ↦ h x t
  ]
  IsFetched-other g S name (some d) ne (x, s, same, e) = (x, inr s, same, e)

  IsFetched-insert :
      (g : GroupConfig) (d : Deadlines W) (S : GroupConfig → Type 0) (m : Dict String (Deadlines W))
      (name : String)
      → fetch remote g.deadlines_url g.deadlines_format ≡ ok d
      → IsFetched S name (lookup name m)
      → IsFetched (λ x. (x ≡ g) ⊎ S x) name (lookup name (insert g.name d m))
  IsFetched-insert g d S m name e h = rw lookup-insert (elim (Bool-cases (g.name == name)) [
    | inl same ↦ rw same (g, inl refl, (eq_iff g.name name).0 same, e)
    | inr other ↦
        rw other
          (IsFetched-other g S name (lookup name m) (λ z. cc (other, (eq_iff g.name name).1 z)) h)
  ])

  fetch_groups-IsFetched :
      (gs : List GroupConfig) (m m' : Dict String (Deadlines W)) (S : GroupConfig → Type 0)
      → fetch_groups remote gs m ≡ ok m'
      → ((name : String) → IsFetched S name (lookup name m))
      → (name : String) → IsFetched (λ x. In x gs ⊎ S x) name (lookup name m')
  unfolding fetch_groups
  fetch_groups-IsFetched [] m m' S e h name =
      let same : m ≡ m' = cc in
      rw (← same) (
        IsFetched-map S _ name (lookup name m) (λ g s. inr s)
          (λ g u. elim u [ inl bad ↦ absurd bad | inr s ↦ s ]) (h name))
  fetch_groups-IsFetched (g ∷ gs) m m' S e h name =
      let (d, e1, e2) =
        bind-ok
          (wrapped "Failed to reload deadlines" (fetch remote g.deadlines_url g.deadlines_format)) _
          m' e in
      IsFetched-map _ _ name (lookup name m')
        (λ x u. elim u [ inl i ↦ inl (inr i) | inr (inl q) ↦ inl (inl q) | inr (inr s) ↦ inr s ])
        (λ x u. elim u [ inl (inl q) ↦ inr (inl q) | inl (inr i) ↦ inl i | inr s ↦ inr (inr s) ])
        (fetch_groups-IsFetched gs (insert g.name d m) m' (λ x. (x ≡ g) ⊎ S x) e2
          (λ n. IsFetched-insert g d S m n (wrapped-ok _ _ d e1) (h n)) name)

  swapped :
      (gs : List GroupConfig) (current next : Current W) (res : Result (Unit {0}))
      (r : Result (Dict String (Deadlines W)))
      → fetch_groups remote gs [] ≡ r
      → swap_in r current ≡ (res, next)
      → ((res ≡ ok tt)
          × ((name : String) → IsFetched (λ g. In g gs) name (group_deadlines next name)))
        ⊎ ((res ≢ ok tt) × (next ≡ current))
  unfolding group_deadlines
  swapped gs current next res (err x) e e' =
      inr (λ z. absurd (cc (ap (λ p. p.0) e', z)), sym (ap (λ p. p.1) e'))
  swapped gs current next res panic e e' =
      inr (λ z. absurd (cc (ap (λ p. p.0) e', z)), sym (ap (λ p. p.1) e'))
  swapped gs current next res (ok m) e e' = inl (
    sym (ap (λ p. p.0) e'),
    λ name.
        subst (λ (c : Current W). IsFetched (λ g. In g gs) name (group_deadlines c name))
          (ap (λ p. p.1) e')
          (IsFetched-map (λ g. In g gs ⊎ ⊥) (λ g. In g gs) name (lookup name m)
            (λ g u. elim u [ inl j ↦ j | inr bad ↦ absurd bad ]) (λ g j. inl j)
            (fetch_groups-IsFetched gs [] m (λ g. ⊥) e (λ n. rw lookup-nil (λ g bad. absurd bad))
              name)),
  )

  -- A reload that succeeds leaves, for every name, the deadlines that the address of a configured
  -- group of this name answers, and none exactly if no configured group has the name; one that fails
  -- leaves all as it was.
  pub reload_lem :
      (gs : List GroupConfig) (current next : Current W) (res : Result (Unit {0}))
      → reload remote gs current ≡ (res, next)
      → ((res ≡ ok tt)
          × ((name : String) → IsFetched (λ g. In g gs) name (group_deadlines next name)))
        ⊎ ((res ≢ ok tt) × (next ≡ current))
  unfolding reload
  reload_lem gs current next res e = swapped gs current next res (fetch_groups remote gs []) refl e
