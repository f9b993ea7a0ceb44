-- ===== src/Tests/Board.antt =====
-- The standings of a concrete group, and its one user's scores.
use text.Mathlib.TextEquality.{eq_iff}
use notmanytask.Base.{
  String, ◌≡◌, refl, sym, subst, inl, Bool, true, Option, none, some, List, [], ◌∷◌, ℤ, pos, In,
  In-select, select, ◌==◌, arith, string_eq, lookup, insert, int_add,
}
use notmanytask.Base.Errors.{ok, ok_inj}
use notmanytask.Models.{User, Flag, OverriddenScore}
use notmanytask.Deadlines.Types.{Deadlines}
use notmanytask.Deadlines.Policy.{policy_score}
use notmanytask.Scorer.Providers.{cached_pipelines_provider, cached_flags_provider}
use notmanytask.Scorer.Types.{UserScores, Standings, ScorerDb}
use notmanytask.Deadlines.Build.{get_scoring_policy, get_scoring_group}
use notmanytask.Scorer.Best.{parse_overrides}
use notmanytask.Scorer.Status.{task_status}
use notmanytask.Scorer.Titles.{prettify_title, make_short_task_name}
use notmanytask.Scorer.Points.{score_task}
use notmanytask.Scorer.User.{total_score, total_max_score, calc_user_scores_impl}
use notmanytask.Scorer.User.Success.{Succeeds, HasNames, calc_user_scores_impl-Succeeds}
use notmanytask.Scorer.User.Totals.{SameGroups, sum_groups, calc_user_scores_impl-totals}
use notmanytask.Scorer.Providers.Laws.{has_login}
use notmanytask.Scorer.Board.{
  standings_less, full_name, calc_user_scores, calc_scoreboard_with_filter,
}
use notmanytask.Scorer.Board.Agreement.{of_login, SameRows}
use notmanytask.Scorer.Board.Order.{OrderLaws}
use notmanytask.Scorer.Board.Rows.{scoreboard_row-calc_user_scores}
use notmanytask.Tests.Samples.{
  int_float, student, runs, taken_flag, built, override_row, plain_names, ivan_scores,
}

abbrev all_flags : List Flag
all_flags = taken_flag ∷ []

abbrev all_overrides : List OverriddenScore
all_overrides = override_row ∷ []

abbrev db : ScorerDb
db = record {
  list_group_users = λ group. ok (select (λ u. u.group_name == group) (student ∷ []));
  list_all_pipelines = ok runs;
  list_project_pipelines = λ project. ok (select (λ p. p.project == project) runs);
  list_submitted_flags = ok all_flags;
  list_user_flags = λ login. ok (select (has_login login) all_flags);
  list_overrides = ok all_overrides;
  list_user_overrides = λ login. ok (select (of_login login) all_overrides);
}

db_rows : SameRows db runs all_flags all_overrides
db_rows = record {
  all_pipelines = refl;
  project_pipelines = λ project. refl;
  submitted_flags = refl;
  linked = (("ivan", refl), tt);
  user_flags = λ login. refl;
  overrides = refl;
  user_overrides = λ login. refl;
}

abbrev deadlines_of : String → Option (Deadlines ℤ)
deadlines_of group = some built

abbrev unsorted : (UserScores ℤ → UserScores ℤ → Bool) → List (UserScores ℤ) → List (UserScores ℤ)
unsorted less rows = rows

ivan_runs :
    calc_user_scores_impl plain_names built student db.list_project_pipelines db.list_user_flags
      all_overrides
    ≡ ok ivan_scores
unfolding calc_user_scores_impl lookup insert int_add score_task prettify_title total_score
    total_max_score parse_overrides make_short_task_name task_status get_scoring_policy
    get_scoring_group policy_score
ivan_runs = refl

totals_example :
    SameGroups built.assignments ivan_scores.groups
    × (ivan_scores.score ≡ sum_groups (λ q. q.score) (pos 0) ivan_scores.groups)
    × (ivan_scores.max_score ≡ sum_groups (λ q. q.max_score) (pos 0) ivan_scores.groups)
    × (student.gitlab_login ≡ some "ivan")
totals_example =
    calc_user_scores_impl-totals plain_names built student db.list_project_pipelines
      db.list_user_flags all_overrides ivan_scores ivan_runs

abbrev board : Standings ℤ
board = record { deadlines = built; users = ivan_scores ∷ [] }

board_runs : calc_scoreboard_with_filter plain_names deadlines_of db unsorted "hse" none ≡ ok board
unfolding calc_scoreboard_with_filter cached_pipelines_provider cached_flags_provider
    calc_user_scores_impl lookup insert int_add score_task prettify_title total_score
    total_max_score parse_overrides make_short_task_name task_status get_scoring_policy
    get_scoring_group policy_score
board_runs = refl

of_group :
    (group : String) (users : List User)
    → db.list_group_users group ≡ ok users
    → (u : User) → In u users
    → u.group_name ≡ group
of_group group users e u i =
    let same : select (λ x. x.group_name == group) (student ∷ []) ≡ users = ok_inj _ users e in
    (eq_iff u.group_name group).0
      ((In-select (λ x. x.group_name == group) u (student ∷ [])).0 (subst (In u) (sym same) i)).1

scoreboard_example :
    (users : List User) × (db.list_group_users "hse" ≡ ok users)
    × (user : User) × In user users
    × (calc_user_scores plain_names deadlines_of db user ≡ ok ivan_scores)
scoreboard_example =
    scoreboard_row-calc_user_scores plain_names deadlines_of db runs all_flags all_overrides db_rows
      of_group unsorted (λ less xs x i. i) "hse" none board board_runs ivan_scores (inl refl)

ivan_named : HasNames plain_names student
ivan_named = record {
  project_name = (_, refl);
  pipeline_url = λ p. (_, refl);
  branch_url = λ p. (_, refl);
}

success_example : Succeeds (
    calc_user_scores_impl plain_names built student db.list_project_pipelines db.list_user_flags
      all_overrides)
success_example =
    calc_user_scores_impl-Succeeds plain_names built student ivan_named "ivan"
      db.list_project_pipelines db.list_user_flags all_overrides refl (λ project. (_, refl))
      (λ l. (_, refl))

int_order : OrderLaws int_float
int_order = record {
  eq_refl = λ x. ground arith;
  eq_sym = λ x y e. ground arith;
  eq_trans = λ x y z e e'. ground arith;
  lt_irrefl = λ x. ground arith;
  lt_trans = λ x y z e e'. ground arith;
  lt_eq = λ x y z e e'. ground arith;
  eq_lt = λ x y z e e'. ground arith;
}

abbrev ivan_eight : UserScores ℤ
ivan_eight = record ivan_scores { final_mark = pos 8 }

abbrev anna_six : UserScores ℤ
anna_six = record ivan_scores { user = record ivan_scores.user { first_name = "Anna" } }

eight_first : standings_less ivan_eight anna_six ≡ true
unfolding standings_less
eight_first = refl

anna_first : standings_less anna_six ivan_scores ≡ true
unfolding standings_less full_name
anna_first = refl
