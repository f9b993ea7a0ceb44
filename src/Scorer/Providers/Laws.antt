-- ===== src/Scorer/Providers/Laws.antt =====
-- A cached provider answers with the rows that the whole list holds for the key, in their order.
use text.Mathlib.TextEquality.{eq_iff}
use notmanytask.Base.{
  String, ◌≡◌, refl, sym, ap, ◌∙◌, inl, inr, Bool, false, Option, none, some, List, [], ◌∷◌, ◌++◌,
  ◌==◌, Dict, lookup, lookup-insert, lookup-nil, string_eq, select, Bool-cases, if◌then◌else◌,
}
use notmanytask.Base.Errors.{Result, ok}
use notmanytask.Models.{Pipeline, Flag}
use notmanytask.Scorer.Providers.{
  rows_at, add_row, pipelines_by_project, flags_by_login, cached_pipelines_provider,
  cached_flags_provider,
}
use mathlib.Core.List.{append-nil, append_assoc}

rows_at-add_row :
    {A : Type 0} (k j : String) (row : A) (m : Dict String (List A))
    → rows_at (lookup j (add_row k row m))
      ≡ rows_at (lookup j m) ++ (if k == j then row ∷ [] else [])
rows_at-add_row k j row m = rw lookup-insert (elim (Bool-cases (k == j)) [
  | inl same ↦ rw same (rw ((eq_iff k j).0 same))
  | inr other ↦ rw (other, append-nil)
])

-- A row in front of the selected ones.
select-cons :
    {A : Type 0} (p : A → Bool) (row : A) (rows : List A)
    → select p (row ∷ rows) ≡ (if p row then row ∷ [] else []) ++ select p rows
select-cons p row rows = elim (Bool-cases (p row)) [ inl e ↦ rw e | inr e ↦ rw e ]

pipelines_by_project-select :
    (project : String) (ps : List Pipeline) (m : Dict String (List Pipeline))
    → rows_at (lookup project (pipelines_by_project ps m))
      ≡ rows_at (lookup project m) ++ select (λ p. p.project == project) ps
unfolding pipelines_by_project
pipelines_by_project-select project [] m = sym (append-nil _)
pipelines_by_project-select project (p ∷ ps) m = rw (
  pipelines_by_project-select project ps (add_row p.project p m),
  rows_at-add_row,
  select-cons,
  append_assoc,
)

-- The cached provider answers, for every project, exactly the pipelines of that project among all
-- that the database lists, in the listed order.
pub cached_pipelines_provider_lem :
    (ps : List Pipeline)
    → (provider : String → Result (List Pipeline)) × (cached_pipelines_provider (ok ps)
        ≡ ok provider)
      × ((project : String) → provider project ≡ ok (select (λ p. p.project == project) ps))
unfolding cached_pipelines_provider
cached_pipelines_provider_lem ps =
    (_, refl, λ project. ap ok (pipelines_by_project-select project ps [] ∙ rw lookup-nil))

abbrev pub login_is : String → Option String → Bool
login_is login none = false
login_is login (some l) = l == login

abbrev pub has_login : String → Flag → Bool
has_login login flag = login_is login flag.gitlab_login

-- No row of the list lacks a login.
abbrev pub AllLinked : List Flag → Type 0
AllLinked [] = Unit
AllLinked (flag ∷ flags) = ((l : String) × (flag.gitlab_login ≡ some l)) × AllLinked flags

flags_by_login-select :
    (fs : List Flag) (m : Dict String (List Flag))
    → AllLinked fs
    → (m' : Dict String (List Flag)) × (flags_by_login fs m ≡ ok m')
      × ((login : String)
          → rows_at (lookup login m') ≡ rows_at (lookup login m) ++ select (has_login login) fs)
unfolding flags_by_login
flags_by_login-select [] m h = (m, refl, λ login. sym (append-nil _))
flags_by_login-select (flag ∷ fs) m ((l, e), h) =
    let (m', run, answers) = flags_by_login-select fs (add_row l flag m) h in
    (
      m',
      simp e run,
      λ login.
          rw (answers login, rows_at-add_row, select-cons, append_assoc, ap (login_is login) e),
    )

-- Of flags that all have a login, the cached provider answers, for every login, exactly those of
-- that login, in the listed order.
pub cached_flags_provider_lem :
    (fs : List Flag)
    → AllLinked fs
    → (provider : String → Result (List Flag)) × (cached_flags_provider (ok fs) ≡ ok provider)
      × ((login : String) → provider login ≡ ok (select (has_login login) fs))
unfolding cached_flags_provider
cached_flags_provider_lem fs h =
    let (m', run, answers) = flags_by_login-select fs [] h in
    (
      λ login. ok (rows_at (lookup login m')),
      rw run,
      λ login. ap ok (answers login ∙ rw lookup-nil),
    )
