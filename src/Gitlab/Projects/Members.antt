-- ===== src/Gitlab/Projects/Members.antt =====
-- The search for a user among the members of a project: it ends, and finds only members.
use notmanytask.Base.{
  ℕ, zero, suc, ◌+◌, ◌≤◌, ◌<◌, ◌≡◌, ◌≢◌, refl, sym, inl, inr, Bool, true, ◌⊎◌, Option, none, some,
  List, [], ◌∷◌, ℤ, eqb_ℤ, eqb_ℤ_iff, leb, arith, In, Bool-cases,
}
use notmanytask.Base.Errors.{Result, ok, err, panic}
use notmanytask.Gitlab.Paging.{Pages}
use notmanytask.Gitlab.Paging.Laws.{Paginated}
use notmanytask.Gitlab.Projects.{has_member, after_members, find_member}

has_member-In : (id : ℤ) (ids : List ℤ) → has_member id ids ≡ true → In id ids
unfolding has_member
has_member-In id [] e = absurd (cc)
has_member-In id (m ∷ ms) e = elim (Bool-cases (eqb_ℤ m id)) [
  | inl q ↦ inl (sym ((eqb_ℤ_iff m id).0 q))
  | inr q ↦ inr (has_member-In id ms (rw q at e))
]

module _ (list : ℕ → Result (List ℤ × Pages)) (id : ℤ) where
  after_members-some :
      (r : Result (List ℤ × Pages)) (next : ℕ → Option (Result Bool))
      → ((ids : List ℤ) (pages : Pages)
          → r ≡ ok (ids, pages)
          → pages.current_page < pages.total_pages
          → next pages.next_page ≢ none)
      → after_members id r next ≢ none
  after_members-some (err x) next h e = absurd (cc)
  after_members-some panic next h e = absurd (cc)
  after_members-some (ok (ids, pages)) next h e = elim (Bool-cases (has_member id ids)) [
    | inl q ↦ absurd (cc (rw q at e))
    | inr q ↦ elim (Bool-cases (leb pages.total_pages pages.current_page)) [
      | inl stop ↦ absurd (cc (rw (q, stop) at e))
      | inr on ↦ h ids pages refl (ground arith) (rw (q, on) at e)
    ]
  ]

  pub find_member-ends :
      (n : ℕ)
      → Paginated list n
      → (fuel page : ℕ) → page ≤ n
      → n < page + fuel
      → find_member list id fuel page ≢ none
  unfolding find_member
  find_member-ends n h zero page low enough = absurd (omega arith)
  find_member-ends n h (suc fuel) page low enough =
      after_members-some (list page) _ (λ ids pages q more.
        let (later, low') = h.next_later page ids pages q more in
        find_member-ends n h fuel pages.next_page low' (omega arith))

  after_members-true :
      (r : Result (List ℤ × Pages)) (next : ℕ → Option (Result Bool))
      → after_members id r next ≡ some (ok true)
      → ((ids : List ℤ) × (pages : Pages) × (r ≡ ok (ids, pages)) × In id ids)
        ⊎ ((page : ℕ) × (next page ≡ some (ok true)))
  after_members-true (err x) next e = absurd (cc)
  after_members-true panic next e = absurd (cc)
  after_members-true (ok (ids, pages)) next e = elim (Bool-cases (has_member id ids)) [
    | inl q ↦ inl (ids, pages, refl, has_member-In id ids q)
    | inr q ↦ elim (Bool-cases (leb pages.total_pages pages.current_page)) [
      | inl stop ↦ absurd (cc (rw (q, stop) at e))
      | inr on ↦ inr (pages.next_page, (rw (q, on) at e))
    ]
  ]

  pub find_member-true :
      (fuel page : ℕ)
      → find_member list id fuel page ≡ some (ok true)
      → (page' : ℕ) × (ids : List ℤ) × (pages : Pages) × (list page' ≡ ok (ids, pages)) × In id ids
  unfolding find_member
  find_member-true zero page e = absurd (cc)
  find_member-true (suc fuel) page e =
      elim (after_members-true (list page) (λ next. find_member list id fuel next) e) [
        | inl (ids, pages, q, i) ↦ (page, ids, pages, q, i)
        | inr (next, q) ↦ find_member-true fuel next q
      ]
