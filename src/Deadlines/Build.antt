-- ===== src/Deadlines/Build.antt =====
-- internal/deadlines/deadlines.go: buildScoringGroups and the look-ups.
pub mod Index
pub mod MaxScore
use notmanytask.Base.{
  ℕ, suc, String, Bool, true, false, Option, none, some, List, [], ◌∷◌, ℤ, pos, eqb_ℤ, int_add,
  ◌==◌, string_eq, Dict, lookup, insert, get_elem?, set, if◌then◌else◌,
}
use notmanytask.Base.Errors.{Result, ok, panic, ◌>>=◌}
use notmanytask.Deadlines.Policy.{ScoringPolicy}
use notmanytask.Deadlines.Types.{Task, TaskGroup, ScoringPolicySpec, ScoringGroup, Deadlines}

-- A map's answer where a missing key and a nil interface are alike.
abbrev or_nil {ℓ} : {A : Type ℓ} → Option (Option A) → Option A
or_nil none = none
or_nil (some a) = a

module _ {W : Type 0} where
  unfoldable pub index_policies :
      List (ScoringPolicySpec W)
      → Dict String (Option (ScoringPolicy W))
      → Dict String (Option (ScoringPolicy W))
  index_policies [] m = m
  index_policies (p ∷ ps) m = index_policies ps (insert p.name p.policy m)

  unfoldable pub index_groups : ℕ → List (ScoringGroup W) → Dict String ℕ → Dict String ℕ
  index_groups i [] m = m
  index_groups i (g ∷ gs) m = index_groups (suc i) gs (insert g.name i m)

  -- The pointer that GetScoringGroup returns; `none` is nil.
  unfoldable pub find_scoring_group : Deadlines W → TaskGroup → Option ℕ
  find_scoring_group d group =
      lookup (if group.group == "" then d.scoring.default_group else group.group) d.groups

  abbrev pub deref : List (ScoringGroup W) → Option ℕ → Option (ScoringGroup W)
  deref gs none = none
  deref gs (some i) = get_elem? gs i

  -- GetScoringGroup, with what its pointer points at.
  unfoldable pub get_scoring_group : Deadlines W → TaskGroup → Option (ScoringGroup W)
  unfolding find_scoring_group
  get_scoring_group d group = deref d.scoring.groups (find_scoring_group d group)

  abbrev policy_of : Deadlines W → Option (ScoringGroup W) → Option (ScoringPolicy W)
  policy_of d none = none
  policy_of d (some g) = or_nil (lookup g.policy d.policies)

  unfoldable pub get_scoring_policy : Deadlines W → TaskGroup → Option (ScoringPolicy W)
  unfolding get_scoring_group
  get_scoring_policy d group = policy_of d (get_scoring_group d group)

-- The inner loop: the sum of the tasks' scores.
unfoldable pub sum_scores : ℤ → List Task → ℤ
sum_scores total [] = total
sum_scores total (t ∷ ts) = sum_scores (int_add total t.score) ts

abbrev pub or_zero : Option ℤ → ℤ
or_zero none = pos 0
or_zero (some z) = z

module _ {W : Type 0} where
  -- The body of the loop over the assignments: `maxScores[group.Name] += totalScore`.
  unfoldable pub add_max_score : Option (ScoringGroup W) → TaskGroup → Dict String ℤ → Dict String ℤ
  add_max_score none a m = m
  add_max_score (some g) a m =
      if eqb_ℤ g.max_score (pos 0)
      then insert g.name (int_add (or_zero (lookup g.name m)) (sum_scores (pos 0) a.tasks)) m
      else m

  unfoldable pub max_scores : Deadlines W → List TaskGroup → Dict String ℤ → Dict String ℤ
  unfolding add_max_score
  max_scores d [] m = m
  max_scores d (a ∷ as') m = max_scores d as' (add_max_score (get_scoring_group d a) a m)

  -- `d.groups[k].MaxScore = v`, in the slice that the pointer points into.
  abbrev pub write_max_score :
      List (ScoringGroup W) → ℕ → Option (ScoringGroup W) → ℤ → List (ScoringGroup W)
  write_max_score gs i none v = gs
  write_max_score gs i (some g) v = set gs i (record g { max_score = v })

  -- The last loop, which panics on a nil pointer.
  unfoldable pub write_max_scores :
      Dict String ℕ → Dict String ℤ → List (ScoringGroup W) → Result (List (ScoringGroup W))
  write_max_scores groups [] gs = ok gs
  write_max_scores groups ((k, v) ∷ m) gs = elim (lookup k groups) [
    | none ↦ panic
    | some i ↦ write_max_scores groups m (write_max_score gs i (get_elem? gs i) v)
  ]

  -- The maps `policies` and `groups`, filled from the slices.
  unfoldable pub index_scoring : Deadlines W → Deadlines W
  unfolding index_policies index_groups
  index_scoring d = record d {
    policies = index_policies d.scoring.policies [];
    groups = index_groups 0 d.scoring.groups [];
  }

  abbrev pub with_groups : Deadlines W → List (ScoringGroup W) → Deadlines W
  with_groups d gs = record d { scoring = record d.scoring { groups = gs } }

  -- buildScoringGroups, which returns no error.
  unfoldable pub build_scoring_groups : Deadlines W → Result (Deadlines W)
  unfolding index_scoring max_scores write_max_scores
  build_scoring_groups d =
      let e = index_scoring d in
      do
        gs ← write_max_scores e.groups (max_scores e e.assignments []) e.scoring.groups
        ok (with_groups e gs)

-- HasTask: its inner loop, its outer loop, and the method.
unfoldable pub has_task_in : List Task → String → Bool
has_task_in [] name = false
has_task_in (t ∷ ts) name = if t.task == name then true else has_task_in ts name

unfoldable pub has_task_among : List TaskGroup → String → Bool
unfolding has_task_in
has_task_among [] name = false
has_task_among (a ∷ as') name = if has_task_in a.tasks name then true else has_task_among as' name

unfoldable pub has_task : {W : Type 0} → Deadlines W → String → Bool
unfolding has_task_among
has_task d name = has_task_among d.assignments name
