-- ===== src/Tests/Pages.antt =====
-- The pages of scores, at concrete data.
use mathlib.Core.List.{reverse}
use notmanytask.Base.{
  String, ◌≡◌, ◌⊎◌, inl, inr, refl, sym, ◌∙◌, Bool, true, false, Option, none, some, List, [], ◌∷◌,
  ℤ, Dict, lookup, insert, lookup-insert, lookup-nil, get_elem?, ◌==◌, string_eq, if◌then◌else◌,
}
use notmanytask.Base.Errors.{Error, ok, err, panic, not_found}
use notmanytask.Models.{User}
use notmanytask.Database.Gorm.{Gorm, Table}
use notmanytask.Database.Gorm.Memory.{down, list_table}
use notmanytask.Database.Users.{find_user_by_gitlab_login}
use notmanytask.Deadlines.Types.{Deadlines, TaskGroup}
use notmanytask.Scorer.Types.{UserScores, Standings}
use notmanytask.Scorer.Board.{calc_user_scores}
use notmanytask.Scorer.Copies.{
  DeadlinesRef, Arrays, copy_deadlines, reverse_assignments, copy_deadlines-independent,
}
use notmanytask.Web.Session.{Cookie}
use notmanytask.Web.Wiring.{scorer_db}
use notmanytask.Web.Pages.{
  Cache, ScoresPage, StandingsPage, scores_of_found, render_home_page, render_cheater_page,
  do_render_standings_page,
}
use notmanytask.Web.Pages.Columns.{Aligned}
use notmanytask.Web.Pages.Cached.{CacheLaws, AllAligned, do_render_standings_page-Aligned}
use notmanytask.Web.Pages.Errors.{Rendered, scores_pages-Rendered}
use notmanytask.Tests.Samples.{int_float, student, newcomer, built, first_group, plain_names, conf}

abbrev shared : DeadlinesRef ℤ
shared = record {
  assignments = 1;
  scoring = built.scoring;
  policies = built.policies;
  groups = built.groups;
}

abbrev two_groups : List TaskGroup
two_groups = first_group ∷ record first_group { title = "02-more" } ∷ []

copy_deadlines_example :
    (d' : DeadlinesRef ℤ) × (arrays' arrays'' : Arrays) × (copy_deadlines shared
        ([] ∷ two_groups ∷ [])
      ≡ ok (d', arrays'))
    × (reverse_assignments d' arrays' ≡ ok arrays'')
    × (get_elem? arrays'' d'.assignments ≡ some (reverse two_groups))
    × (get_elem? arrays'' 1 ≡ some two_groups)
copy_deadlines_example = copy_deadlines-independent shared ([] ∷ two_groups ∷ []) two_groups refl

-- A table without rows.
abbrev no_rows : {S R : Type 0} → Table S R
no_rows = record down { find = λ p s. ok []; first = λ p s. err not_found }

instance abbrev quiet_db : Gorm (List User)
quiet_db = record {
  users = list_table (λ u. true) (λ u. u);
  pipelines = no_rows;
  sessions = no_rows;
  flags = no_rows;
  overrides = no_rows;
}

abbrev plain : String → String
plain t = t

abbrev deadlines_of : String → Option (Deadlines ℤ)
deadlines_of group = some built

abbrev unsorted : (UserScores ℤ → UserScores ℤ → Bool) → List (UserScores ℤ) → List (UserScores ℤ)
unsorted less rows = rows

abbrev dict_cache : Cache ℤ (Dict String (Standings ℤ))
dict_cache = record { get = λ key c. lookup key c; put = λ key ttl v c. insert key v c }

hit_or_old :
    {A : Type 0} (b : Bool) (v found : A) (old : Option A)
    → (if b then some v else old) ≡ some found
    → (found ≡ v) ⊎ (old ≡ some found)
hit_or_old true v found old e = inl (cc)
hit_or_old false v found old e = inr e

dict_cache-laws : CacheLaws dict_cache
dict_cache-laws = record {
  get-put = λ key key' ttl v c found e.
      hit_or_old (key == key') v found (lookup key' c) (sym (lookup-insert key key' v c) ∙ e);
}

scores_pages_example :
    ((e : Error)
      → calc_user_scores plain_names deadlines_of (scorer_db (student ∷ [])) newcomer ≡ err e
      → render_home_page conf plain plain_names deadlines_of unsorted dict_cache newcomer
          (student ∷ [])
        ≡ panic)
    × ((e : Error)
        → find_user_by_gitlab_login "anna" (student ∷ []) ≡ err e
        → render_cheater_page conf plain plain_names deadlines_of unsorted dict_cache "anna"
            (student ∷ [])
          ≡ panic)
    × ((page : ScoresPage ℤ)
        → render_home_page conf plain plain_names deadlines_of unsorted dict_cache newcomer
            (student ∷ [])
          ≡ ok page
        → Rendered conf plain
            (calc_user_scores plain_names deadlines_of (scorer_db (student ∷ [])) newcomer)
            page)
    × ((page : ScoresPage ℤ)
        → render_cheater_page conf plain plain_names deadlines_of unsorted dict_cache "anna"
            (student ∷ [])
          ≡ ok page
        → Rendered conf plain
            (scores_of_found conf plain plain_names deadlines_of unsorted dict_cache
              (find_user_by_gitlab_login "anna" (student ∷ []))
              (student ∷ []))
            page)
scores_pages_example =
    scores_pages-Rendered conf plain plain_names deadlines_of unsorted dict_cache newcomer "anna"
      (student ∷ [])

abbrev no_cookie : Cookie
no_cookie = record { token = none; oauth_state = none }

standings_columns_example :
    AllAligned dict_cache
      (do_render_standings_page conf plain plain_names deadlines_of unsorted dict_cache "hse"
        "standings" none no_cookie
        (student ∷ [])
        []).1
    × ((page : StandingsPage ℤ)
        → (do_render_standings_page conf plain plain_names deadlines_of unsorted dict_cache "hse"
            "standings" none no_cookie
            (student ∷ [])
            []).0
          ≡ ok page
        → Aligned page.standings)
standings_columns_example =
    do_render_standings_page-Aligned conf plain plain_names deadlines_of unsorted (λ less xs x i. i)
      dict_cache dict_cache-laws "hse" "standings" none no_cookie (student ∷ []) []
      (λ key v e. absurd (cc (sym (lookup-nil key) ∙ e)))
