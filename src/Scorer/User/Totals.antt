-- ===== src/Scorer/User/Totals.antt =====
-- A user's scores follow the assignments, and their sums are right.
use mathlib.Core.List.{append-nil, append_assoc}
use notmanytask.Base.{
  String, ◌≡◌, refl, sym, ap, subst, ◌∙◌, Bool, true, false, Option, none, some, List, [], ◌∷◌,
  ◌++◌, ℤ, pos, int_add, Dict, lookup, string_eq, if◌then◌else◌,
}
use notmanytask.Base.Errors.{Result, ok, deref, bind-ok, ok_inj, deref-ok}
use notmanytask.Base.Float.{Float}
use notmanytask.Models.{User, Pipeline, Flag, OverriddenScore}
use notmanytask.Deadlines.Policy.{ScoringPolicy}
use notmanytask.Deadlines.Types.{Task, TaskGroup, Deadlines}
use notmanytask.Deadlines.Build.{get_scoring_policy}
use notmanytask.Scorer.Types.{
  ScoredTask, ScoredTaskGroup, ScoredUser, UserScores, OverrideKey, override_key_eq, ProjectNames,
}
use notmanytask.Scorer.Points.{
  assigned, score_task, score_by_flag, score_by_pipeline, score_by_override,
}
use notmanytask.Scorer.User.{
  total_score, total_max_score, Submits, score_tasks, score_groups, scored_group, add_group,
  no_scores, load_user_pipelines, load_user_flags, calc_user_scores_impl,
}

-- Task by task, the name and the points that can be got are those of the assignment.
abbrev pub SameTasks : List Task → List ScoredTask → Type 0
SameTasks [] [] = Unit
SameTasks [] (q ∷ qs) = ⊥
SameTasks (t ∷ ts) [] = ⊥
SameTasks (t ∷ ts) (q ∷ qs) = (q.task ≡ t.task) × (q.max_score ≡ t.score) × SameTasks ts qs

-- Group by group: the assignment's title, deadline and tasks, and the sums over the tasks.
abbrev pub SameGroups : List TaskGroup → List ScoredTaskGroup → Type 0
SameGroups [] [] = Unit
SameGroups [] (q ∷ qs) = ⊥
SameGroups (a ∷ as') [] = ⊥
SameGroups (a ∷ as') (q ∷ qs) =
    (q.title ≡ a.title)
    × (q.deadline ≡ a.deadline)
    × SameTasks a.tasks q.tasks
    × (q.score ≡ total_score (pos 0) q.tasks)
    × (q.max_score ≡ total_max_score (pos 0) q.tasks)
    × SameGroups as' qs

abbrev pub sum_groups : (ScoredTaskGroup → ℤ) → ℤ → List ScoredTaskGroup → ℤ
sum_groups points total [] = total
sum_groups points total (q ∷ qs) = sum_groups points (int_add total (points q)) qs

module _ {W : Type 0} ⦃f : Float W⦄ (names : ProjectNames) (d : Deadlines W) (user : User)
    (login : String) where
  abbrev Keeps : Task → ScoredTask → Type 0
  Keeps t q = (q.task ≡ t.task) × (q.max_score ≡ t.score)

  score_by_pipeline-Keeps :
      (policy : Option (ScoringPolicy W)) (group : TaskGroup) (t : Task) (p : Option Pipeline)
      (q q' : ScoredTask)
      → Keeps t q
      → score_by_pipeline names d user login policy group t p q ≡ ok q'
      → Keeps t q'
  score_by_pipeline-Keeps policy group t none q q' h e =
      let same : q ≡ q' = cc in subst (Keeps t) same h
  score_by_pipeline-Keeps policy group t (some p) q q' h e =
      let (url, _, e1) = bind-ok (names.make_pipeline_url user p) _ q' e in
      let (branch, _, e2) = bind-ok (names.make_branch_url user p) _ q' e1 in
      subst (Keeps t) (ok_inj _ q' e2) h

  score_by_flag-Keeps :
      (policy : Option (ScoringPolicy W)) (group : TaskGroup) (t : Task) (flag : Option Flag)
      (p : Option Pipeline) (q q' : ScoredTask)
      → Keeps t q
      → score_by_flag names d user login policy group t flag p q ≡ ok q'
      → Keeps t q'
  score_by_flag-Keeps policy group t (some flag) p q q' h e = subst (Keeps t) (ok_inj _ q' e) h
  score_by_flag-Keeps policy group t none p q q' h e = either t.crashme e
    where
      either :
          (b : Bool)
          → (if b then ok q else score_by_pipeline names d user login policy group t p q) ≡ ok q'
          → Keeps t q'
      either true e' = subst (Keeps t) (ok_inj q q' e') h
      either false e' = score_by_pipeline-Keeps policy group t p q q' h e'

  score_by_override-Keeps :
      (policy : Option (ScoringPolicy W)) (group : TaskGroup) (t : Task)
      (o : Option OverriddenScore) (q : ScoredTask)
      → Keeps t q
      → Keeps t (score_by_override names d user login policy group t o q)
  score_by_override-Keeps policy group t none q h = h
  score_by_override-Keeps policy group t (some o) q h = h

  score_task-Keeps :
      (policy : Option (ScoringPolicy W)) (group : TaskGroup) (t : Task) (flags : Dict String Flag)
      (pipelines : Dict String Pipeline) (overrides : Dict OverrideKey OverriddenScore)
      (q : ScoredTask)
      → score_task names d user login policy group t flags pipelines overrides ≡ ok q
      → Keeps t q
  unfolding score_task assigned
  score_task-Keeps policy group t flags pipelines overrides q e =
      let (scored, e1, e2) =
        bind-ok
          (score_by_flag names d user login policy group t (lookup t.task flags)
            (lookup t.task pipelines) (assigned names d user login t))
          _ q e in
      subst (Keeps t) (ok_inj _ q e2) (
        score_by_override-Keeps policy group t
          (lookup (record { login = login; task = t.task }) overrides) scored
          (score_by_flag-Keeps policy group t (lookup t.task flags) (lookup t.task pipelines)
            (assigned names d user login t) scored (refl, refl) e1))

  score_tasks-SameTasks :
      (group : TaskGroup) (submits : Submits) (ts : List Task) (qs : List ScoredTask)
      → score_tasks names d user login group submits ts ≡ ok qs
      → SameTasks ts qs
  unfolding score_tasks
  score_tasks-SameTasks group submits [] qs e =
      let same : [] ≡ qs = cc in subst (SameTasks []) same tt
  score_tasks-SameTasks group submits (t ∷ ts) qs e =
      let (q, e1, e2) =
        bind-ok
          (score_task names d user login (get_scoring_policy d group) group t submits.flags
            submits.pipelines submits.overrides)
          _ qs e in
      let (rest, e3, e4) = bind-ok (score_tasks names d user login group submits ts) _ qs e2 in
      let same : q ∷ rest ≡ qs = cc in
      let (a, b) =
        score_task-Keeps (get_scoring_policy d group) group t submits.flags submits.pipelines
          submits.overrides q e1 in
      subst (SameTasks (t ∷ ts)) same (a, b, score_tasks-SameTasks group submits ts rest e3)

  -- What the loop over the assignments adds to the scores it starts from.
  record Adds (gs : List TaskGroup) (before after : UserScores W) : Type 0 where
    added : List ScoredTaskGroup
    groups : after.groups ≡ before.groups ++ added
    same : SameGroups gs added
    score : after.score ≡ sum_groups (λ q. q.score) before.score added
    max_score : after.max_score ≡ sum_groups (λ q. q.max_score) before.max_score added
    whose : after.user ≡ before.user

  score_groups-Adds :
      (submits : Submits) (gs : List TaskGroup) (before after : UserScores W)
      → score_groups names d user login submits gs before ≡ ok after
      → Adds gs before after
  unfolding score_groups
  score_groups-Adds submits [] before after e =
      subst (Adds [] before) (ok_inj before after e) (record {
        added = [];
        groups = sym (append-nil _);
        same = tt;
        score = refl;
        max_score = refl;
        whose = refl;
      })
  score_groups-Adds submits (g ∷ gs) before after e =
      let (tasks, e1, e2) = bind-ok (score_tasks names d user login g submits g.tasks) _ after e in
      let h = score_groups-Adds submits gs (add_group names d user login g tasks before) after e2 in
      record {
        added = scored_group names d user login g tasks ∷ h.added;
        groups = h.groups ∙ append_assoc before.groups _ h.added;
        same = (refl, refl, score_tasks-SameTasks g submits g.tasks tasks e1, refl, refl, h.same);
        score = h.score;
        max_score = h.max_score;
        whose = h.whose;
      }

-- The scores of a user are shown group by group and task by task in the order of the assignments, with
-- the assignments' titles, deadlines and points, every group's score and maximum are the sums over its tasks, and
-- the user's are the sums over the groups.
pub calc_user_scores_impl-totals :
    {W : Type 0} ⦃f : Float W⦄ (names : ProjectNames) (d : Deadlines W) (user : User)
    (pipelines : String → Result (List Pipeline)) (flags : String → Result (List Flag))
    (overrides : List OverriddenScore) (scores : UserScores W)
    → calc_user_scores_impl names d user pipelines flags overrides ≡ ok scores
    → SameGroups d.assignments scores.groups
      × (scores.score ≡ sum_groups (λ q. q.score) (pos 0) scores.groups)
      × (scores.max_score ≡ sum_groups (λ q. q.max_score) (pos 0) scores.groups)
      × (user.gitlab_login ≡ some scores.user.gitlab_login)
unfolding calc_user_scores_impl
calc_user_scores_impl-totals names d user pipelines flags overrides scores e =
    let (ps, _, e1) = bind-ok (load_user_pipelines names user pipelines) _ scores e in
    let (fs, _, e2) = bind-ok (load_user_flags user flags) _ scores e1 in
    let (login, e3, e4) = bind-ok (deref user.gitlab_login) _ scores e2 in
    let (project, _, e5) = bind-ok (names.make_project_name user) _ scores e4 in
    let h =
      score_groups-Adds names d user login _ d.assignments (no_scores names d user login project)
        scores e5 in
    (
      subst (SameGroups d.assignments) (sym h.groups) h.same,
      h.score ∙ ap (sum_groups (λ q. q.score) (pos 0)) (sym h.groups),
      h.max_score ∙ ap (sum_groups (λ q. q.max_score) (pos 0)) (sym h.groups),
      deref-ok user.gitlab_login login e3
          ∙ ap (λ (u : ScoredUser). some u.gitlab_login) (sym h.whose),
    )
