-- ===== src/Gitlab/Paging/Laws.antt =====
-- The loop over the pages of GitLab ends.
use notmanytask.Base.{
  ℕ, zero, suc, ◌+◌, ◌≤◌, ◌<◌, ◌≡◌, ◌≢◌, none, some, List, leb, arith, Bool-cases, Option-cases,
  refl, inl, inr,
}
use notmanytask.Base.Errors.{Result, ok, err, panic}
use notmanytask.Gitlab.Calls.{Calls}
use notmanytask.Gitlab.Paging.{Pages, Outcome, after_body, after_list, each_page}

-- What GitLab documents of the headers: a page that is not the last names a later one as the next,
-- and there are `n` pages at most.
pub record Paginated {A : Type 0} (list : ℕ → Result (List A × Pages)) (n : ℕ) : Type 0 where
  pub next_later :
      (page : ℕ) (items : List A) (pages : Pages)
      → list page ≡ ok (items, pages)
      → pages.current_page < pages.total_pages
      → (page < pages.next_page) × (pages.next_page ≤ n)

module _ {A S : Type 0} (list : ℕ → Result (List A × Pages)) (body : List A → Calls S (Unit {0}))
    (ends : (items : List A) (s : S) → body items s ≢ none) where
  after_body-some :
      (pages : Pages) (r : Outcome list body) (next : S → Outcome list body)
      → r ≢ none
      → (pages.current_page < pages.total_pages → (s : S) → next s ≢ none)
      → after_body list body pages r next ≢ none
  after_body-some pages none next some_r h e = some_r refl
  after_body-some pages (some (err x, s)) next some_r h e = absurd (cc)
  after_body-some pages (some (panic, s)) next some_r h e = absurd (cc)
  after_body-some pages (some (ok _, s)) next some_r h e =
      elim (Bool-cases (leb pages.total_pages pages.current_page)) [
        | inl stop ↦ absurd (cc (rw stop at e))
        | inr on ↦ h (ground arith) s (rw on at e)
      ]

  after_list-some :
      (r : Result (List A × Pages)) (s : S) (next : Pages → S → Outcome list body)
      → ((items : List A) (pages : Pages)
          → r ≡ ok (items, pages)
          → pages.current_page < pages.total_pages
          → (s' : S) → next pages s' ≢ none)
      → after_list list body r s next ≢ none
  after_list-some (err x) s next h e = absurd (cc)
  after_list-some panic s next h e = absurd (cc)
  after_list-some (ok (items, pages)) s next h e =
      after_body-some pages (body items s) (next pages) (ends items s) (h items pages refl) e

  each_page-fuel :
      (n : ℕ)
      → Paginated list n
      → (fuel page : ℕ) (s : S) → page ≤ n
      → n < page + fuel
      → each_page list body fuel page s ≢ none
  unfolding each_page
  each_page-fuel n h zero page s low enough = absurd (omega arith)
  each_page-fuel n h (suc fuel) page s low enough =
      after_list-some (list page) s _ (λ items pages q more s'.
        let (later, low') = h.next_later page items pages q more in
        each_page-fuel n h fuel pages.next_page s' low' (omega arith))

  -- Where every page that is not the last names a later one, of `n` at most, and the handling of each
  -- page ends, `n + 1` units of fuel are enough for the loop from page 0: it ends.
  pub each_page-ends :
      (n : ℕ)
      → Paginated list n
      → (s : S) → (r : Result (Unit {0}) × S) × (each_page list body (suc n) 0 s ≡ some r)
  each_page-ends n h s = elim (Option-cases (each_page list body (suc n) 0 s)) [
    | inl e ↦ absurd (each_page-fuel n h (suc n) 0 s (omega arith) (omega arith) e)
    | inr found ↦ found
  ]
