-- ===== src/Gitlab/Paging.antt =====
-- The loop that reads a paginated list of GitLab, page by page, in pipelines.go.
pub mod Laws
use notmanytask.Base.{ℕ, zero, suc, Option, none, some, List, leb, if◌then◌else◌}
use notmanytask.Gitlab.Calls.{Calls}
use notmanytask.Base.Errors.{Result, ok, err, panic}

-- The headers of a page.
pub record Pages : Type 0 where
  pub current_page : ℕ
  pub total_pages : ℕ
  pub next_page : ℕ

-- `body` handles the items of one page; an error of it, or of the request, ends the loop. `none`
-- says that the fuel ran out.
module _ {A S : Type 0} (list : ℕ → Result (List A × Pages))
    (body : List A → Calls S (Unit {0})) where
  abbrev pub Outcome : Type 0
  Outcome = Option (Result (Unit {0}) × S)

  abbrev pub after_body : Pages → Outcome → (S → Outcome) → Outcome
  after_body pages none next = none
  after_body pages (some (err e, s)) next = some (err e, s)
  after_body pages (some (panic, s)) next = some (panic, s)
  after_body pages (some (ok _, s)) next =
      let rest = next s in
      if leb pages.total_pages pages.current_page then some (ok tt, s) else rest

  abbrev pub after_list : Result (List A × Pages) → S → (Pages → S → Outcome) → Outcome
  after_list (err e) s next = some (err e, s)
  after_list panic s next = some (panic, s)
  after_list (ok (items, pages)) s next = after_body pages (body items s) (next pages)

  unfoldable pub each_page : ℕ → ℕ → S → Outcome
  each_page zero page s = none
  each_page (suc fuel) page s =
      after_list (list page) s (λ pages s'. each_page fuel pages.next_page s')
