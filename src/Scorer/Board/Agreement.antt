-- ===== src/Scorer/Board/Agreement.antt =====
-- The standings and a user's own page show the same scores.
use mathlib.Core.Path.{fun_ext}
use notmanytask.Base.{
  String, ◌≡◌, refl, sym, ap, ◌∙◌, ◌⊎◌, inl, inr, Bool, Option, some, List, [], ◌∷◌, ◌==◌, Dict,
  lookup, lookup-insert, string_eq, select, In, Bool-cases,
}
use notmanytask.Base.Errors.{Result, ok, deref, ◌>>=◌, bind-ok, deref-ok}
use notmanytask.Base.Float.{Float}
use notmanytask.Models.{User, Pipeline, Flag, OverriddenScore}
use notmanytask.Deadlines.Types.{Task, TaskGroup, Deadlines}
use notmanytask.Scorer.Types.{
  ScoredTask, UserScores, OverrideKey, override_key_eq, ProjectNames, ScorerDb,
}
use notmanytask.Scorer.Best.{index_overrides, parse_overrides, key_of}
use notmanytask.Scorer.Points.{score_task}
use notmanytask.Scorer.User.{
  Submits, score_tasks, score_groups, calc_user_scores_impl, add_group, load_user_pipelines,
  load_user_flags, no_scores,
}
use notmanytask.Scorer.Providers.Laws.{has_login, AllLinked}
use notmanytask.Scorer.Board.{calc_all}

abbrev pub of_login : String → OverriddenScore → Bool
of_login login o = o.gitlab_login == login

abbrev pub key : String → String → OverrideKey
key login task = record { login = login; task = task }

-- The overrides of other logins do not matter for a key of the login.
index_overrides-select :
    (login task : String) (os : List OverriddenScore) (m n : Dict OverrideKey OverriddenScore)
    → lookup (key login task) m ≡ lookup (key login task) n
    → lookup (key login task) (index_overrides os m)
      ≡ lookup (key login task) (index_overrides (select (of_login login) os) n)
unfolding index_overrides
index_overrides-select login task [] m n h = h
index_overrides-select login task (o ∷ os) m n h = elim (Bool-cases (o.gitlab_login == login)) [
  | inl same ↦ rw same (
      index_overrides-select login task os _ _ (
        lookup-insert (key_of o) (key login task) o m
        ∙ rw h (sym (lookup-insert (key_of o) (key login task) o n))))
  | inr other ↦ rw other (
      index_overrides-select login task os _ _
        (lookup-insert (key_of o) (key login task) o m ∙ rw other h))
]

-- Two maps of overrides that agree on the keys of a login.
abbrev Agree : String → Dict OverrideKey OverriddenScore → Dict OverrideKey OverriddenScore → Type 0
Agree login m n = (task : String) → lookup (key login task) m ≡ lookup (key login task) n

parse_overrides-Agree :
    (login : String) (os : List OverriddenScore)
    → Agree login (parse_overrides os) (parse_overrides (select (of_login login) os))
unfolding parse_overrides
parse_overrides-Agree login os task = index_overrides-select login task os [] [] refl

module _ {W : Type 0} ⦃f : Float W⦄ (names : ProjectNames) (d : Deadlines W) (user : User)
    (login : String) where
  module _ (flags : Dict String Flag) (pipelines : Dict String Pipeline)
      (m n : Dict OverrideKey OverriddenScore) (same : Agree login m n) where
    abbrev with_overrides : Dict OverrideKey OverriddenScore → Submits
    with_overrides o = record { flags = flags; pipelines = pipelines; overrides = o }

    score_tasks-Agree :
        (group : TaskGroup) (ts : List Task)
        → score_tasks names d user login group (with_overrides m) ts
          ≡ score_tasks names d user login group (with_overrides n) ts
    unfolding score_tasks score_task
    score_tasks-Agree group [] = refl
    score_tasks-Agree group (t ∷ ts) = rw (same t.task, score_tasks-Agree group ts)

    score_groups-Agree :
        (gs : List TaskGroup) (scores : UserScores W)
        → score_groups names d user login (with_overrides m) gs scores
          ≡ score_groups names d user login (with_overrides n) gs scores
    unfolding score_groups
    score_groups-Agree [] scores = refl
    score_groups-Agree (g ∷ gs) scores = rw (score_tasks-Agree g g.tasks) (
        ap
          (λ (k : List ScoredTask → Result (UserScores W)).
            score_tasks names d user login g (with_overrides n) g.tasks >>= k)
          (fun_ext (λ tasks. score_groups-Agree gs (add_group names d user login g tasks scores))))

pub deref-some :
    {A B : Type 0} (o : Option A) (a : A) → o ≡ some a → (k : A → Result B) → (deref o >>= k) ≡ k a
deref-some o a e k = ap (λ x. deref x >>= k) e

In-nil : {A : Type 0} (a : A) (xs : List A) → ok [] ≡ ok xs → In a xs → ⊥
In-nil a [] e i = i
In-nil a (x ∷ xs) e i = cc

In-cons :
    {A : Type 0} (a x : A) (rest xs : List A)
    → ok (x ∷ rest) ≡ ok xs
    → In a xs
    → (a ≡ x) ⊎ In a rest
In-cons a x rest xs e i = let same : xs ≡ x ∷ rest = cc in rw same at i

-- What one listing of all rows answers, and what the queries for one user answer, is the same.
pub record SameRows (db : ScorerDb) (ps : List Pipeline) (fs : List Flag)
    (os : List OverriddenScore) : Type 0 where
  pub all_pipelines : db.list_all_pipelines ≡ ok ps
  pub project_pipelines :
      (project : String)
      → db.list_project_pipelines project ≡ ok (select (λ p. p.project == project) ps)
  pub submitted_flags : db.list_submitted_flags ≡ ok fs
  pub linked : AllLinked fs
  pub user_flags : (login : String) → db.list_user_flags login ≡ ok (select (has_login login) fs)
  pub overrides : db.list_overrides ≡ ok os
  pub user_overrides :
      (login : String) → db.list_user_overrides login ≡ ok (select (of_login login) os)

module _ {W : Type 0} ⦃f : Float W⦄ (names : ProjectNames) (db : ScorerDb) (ps : List Pipeline)
    (fs : List Flag) (os : List OverriddenScore) (rows : SameRows db ps fs os) where
  pub impl-Agree :
      (d : Deadlines W) (user : User) (login : String)
      → user.gitlab_login ≡ some login
      → calc_user_scores_impl names d user db.list_project_pipelines db.list_user_flags os
        ≡ calc_user_scores_impl names d user db.list_project_pipelines db.list_user_flags
            (select (of_login login) os)
  unfolding calc_user_scores_impl
  impl-Agree d user login e =
      ap (λ k. load_user_pipelines names user db.list_project_pipelines >>= k)
        (fun_ext (λ pipelines.
          ap (λ k. load_user_flags user db.list_user_flags >>= k)
            (fun_ext (λ flags.
              deref-some user.gitlab_login login e _
              ∙ ap (λ k. names.make_project_name user >>= k)
                  (fun_ext (λ project.
                    score_groups-Agree names d user login flags pipelines _ _
                      (parse_overrides-Agree login os) d.assignments
                      (no_scores names d user login project)))
              ∙ sym (deref-some user.gitlab_login login e _)))))

module _ {W : Type 0} ⦃f : Float W⦄ (names : ProjectNames) (os : List OverriddenScore) where
  -- Only a user with a login has scores.
  pub impl-login :
      (d : Deadlines W) (user : User) (P : String → Result (List Pipeline))
      (F : String → Result (List Flag)) (row : UserScores W)
      → calc_user_scores_impl names d user P F os ≡ ok row
      → (login : String) × (user.gitlab_login ≡ some login)
  unfolding calc_user_scores_impl
  impl-login d user P F row e =
      let (pipelines, _, e1) = bind-ok (load_user_pipelines names user P) _ row e in
      let (flags, _, e2) = bind-ok (load_user_flags user F) _ row e1 in
      let (login, e3, _) = bind-ok (deref user.gitlab_login) _ row e2 in
      (login, deref-ok user.gitlab_login login e3)

  pub calc_all-In :
      (d : Deadlines W) (P : String → Result (List Pipeline)) (F : String → Result (List Flag))
      (users : List User) (rows' : List (UserScores W)) (row : UserScores W)
      → calc_all names d P F os users ≡ ok rows'
      → In row rows'
      → (user : User) × In user users × (calc_user_scores_impl names d user P F os ≡ ok row)
  unfolding calc_all
  calc_all-In d P F [] rows' row e i = absurd (In-nil row rows' e i)
  calc_all-In d P F (u ∷ us) rows' row e i =
      let (scores, e1, e2) = bind-ok (calc_user_scores_impl names d u P F os) _ rows' e in
      let (rest, e3, e4) = bind-ok (calc_all names d P F os us) _ rows' e2 in
      elim (In-cons row scores rest rows' e4 i) [
        | inl q ↦ (u, inl refl, e1 ∙ ap ok (sym q))
        | inr j ↦ let (v, k, e5) = calc_all-In d P F us rest row e3 j in (v, inr k, e5)
      ]
