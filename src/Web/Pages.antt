-- ===== src/Web/Pages.antt =====
-- The pages with scores of internal/web/render.go: what the templates are given.
pub mod Errors
pub mod Columns
pub mod Cached
use Prim.Native.String.{◌++◌}
use notmanytask.Base.{
  ℕ, String, Bool, Option, none, some, List, [], ◌∷◌, ◌==◌, string_eq, if◌then◌else◌,
}
use notmanytask.Base.Errors.{Error, Result, ok, err, panic, ◌>>=◌, deref}
use notmanytask.Base.Float.{Float}
use notmanytask.Config.{Config, GroupConfig, find_group, find_default_group}
use notmanytask.Models.{User, Session}
use notmanytask.Database.Gorm.{Gorm}
use notmanytask.Database.Users.{find_user_by_gitlab_login}
use notmanytask.Deadlines.Types.{Deadlines}
use notmanytask.Gitlab.Names.{make_project_url, make_project_submits_url}
use notmanytask.Generic.{reversed}
use notmanytask.Scorer.Types.{UserScores, Standings, ProjectNames}
use notmanytask.Scorer.Board.{calc_user_scores, calc_scoreboard, calc_scoreboard_with_filter}
use notmanytask.Web.Session.{Cookie, try_find_user_by_token}
use notmanytask.Web.Wiring.{scorer_db}

-- A function that returns a pointer and an error returns nil with an error.
abbrev pub value_of : {A : Type 0} → Result A → Option A
value_of (ok a) = some a
value_of (err e) = none
value_of panic = none

abbrev pub error_of : {A : Type 0} → Result A → Option Error
error_of (ok a) = none
error_of (err e) = some e
error_of panic = none

-- `scores.Groups` follows the pointer.
unfoldable pub reverse_scores : {W : Type 0} → Option (UserScores W) → Result (UserScores W)
unfolding reversed
reverse_scores scores = do
  s ← deref scores
  groups ← reversed s.groups
  ok (record s { groups = groups })

unfoldable pub reverse_users : {W : Type 0} → List (UserScores W) → Result (List (UserScores W))
unfolding reverse_scores
reverse_users [] = ok []
reverse_users (u ∷ us) = do u' ← reverse_scores (some u); us' ← reverse_users us; ok (u' ∷ us')

unfoldable pub reverse_scoreboard_groups :
    {W : Type 0} → Option (Standings W) → Result (Standings W)
unfolding reverse_users
reverse_scoreboard_groups standings = do
  s ← deref standings
  assignments ← reversed s.deadlines.assignments
  users ← reverse_users s.users
  ok (record { deadlines = record s.deadlines { assignments = assignments }; users = users })

pub record Links : Type 0 where
  pub deadlines : String
  pub standings : String
  pub tasks_repository : String
  pub repository : String
  pub submits : String
  pub logout : String
  pub submit_flag : String

pub record ScoresPage (W : Type 0) : Type 0 where
  pub course_name : String
  pub scores : UserScores W
  pub error : Option Error
  pub links : Links

pub record StandingsPage (W : Type 0) : Type 0 where
  pub course_name : String
  pub group_config : Option GroupConfig
  pub standings : Standings W
  pub error : Option Error
  pub links : Option Links

-- The cache of the standings, a library: what it holds for a key that has not expired, and a new
-- entry with its seconds to live.
pub record Cache (W C : Type 0) : Type 0 where
  pub get : String → C → Option (Standings W)
  pub put : String → ℕ → Standings W → C → C

abbrev pub store_standings :
    {W C : Type 0} → Cache W C → String → Result (Standings W) → C → Result (Standings W) × C
store_standings cache key (ok standings) c = (ok standings, cache.put key 10 standings c)
store_standings cache key (err e) c = (err e, c)
store_standings cache key panic c = (panic, c)

-- What is found in the cache, or else what is computed on a miss.
abbrev pub fetched_or :
    {W C : Type 0} → Option (Standings W) → C → Result (Standings W) × C → Result (Standings W) × C
fetched_or (some standings) c missed = (ok standings, c)
fetched_or none c missed = missed

module _ (conf : Config) (translit : String → String) where
  -- The user is a pointer.
  unfoldable pub make_links : Option User → Result Links
  unfolding make_project_url make_project_submits_url
  make_links user = do
    u ← deref user
    repository ← make_project_url conf.gitlab translit u
    submits ← make_project_submits_url conf.gitlab translit u
    ok (record {
      deadlines = conf.endpoints.home;
      standings = conf.endpoints.standings;
      tasks_repository = conf.gitlab.task_url_prefix;
      repository = repository;
      submits = submits;
      logout = conf.endpoints.logout;
      submit_flag = conf.endpoints.flag;
    })

  unfoldable pub scores_page :
      {W : Type 0} → Result (UserScores W) → Option User → Result (ScoresPage W)
  unfolding make_links reverse_scores
  scores_page scored user = do
    scores ← reverse_scores (value_of scored)
    links ← make_links user
    ok (record {
      course_name = conf.course_name;
      scores = scores;
      error = error_of scored;
      links = links;
    })

  -- The group of the query, or the default one.
  unfoldable pub page_group : String → String
  unfolding find_default_group
  page_group query =
      if query == ""
      then elim (find_default_group conf.groups) [ none ↦ "" | some g ↦ g.name ]
      else query

  -- `if user, session, err := s.tryFindUserByToken(c); err == nil && session != nil`
  abbrev pub visitor_links : Result (Option (User × Session)) → Result (Option Links)
  unfolding make_links
  visitor_links (ok (some (user, session))) = do links ← make_links (some user); ok (some links)
  visitor_links (ok none) = ok none
  visitor_links (err e) = ok none
  visitor_links panic = panic

  unfoldable pub standings_page :
      {W : Type 0} → String → Standings W → Option Links → StandingsPage W
  unfolding find_group
  standings_page group standings links = record {
    course_name = conf.course_name;
    group_config = find_group conf.groups group;
    standings = standings;
    error = none;
    links = links;
  }

  -- With an error of the fetch, `scores` is nil and `scores.Value()` panics.
  abbrev pub fetched_page :
      {W : Type 0} → String → Option Links → Result (Standings W) → Result (StandingsPage W)
  fetched_page group links (ok standings) = ok (standings_page group standings links)
  fetched_page group links (err e) = panic
  fetched_page group links panic = panic

  -- A panic over the links comes before the fetch.
  abbrev pub with_links :
      {W C : Type 0}
      → Result (Option Links)
      → String
      → Result (Standings W) × C
      → C
      → Result (StandingsPage W) × C
  with_links (ok links) group (r, c') c = (fetched_page group links r, c')
  with_links (err e) group fetched c = (err e, c)
  with_links panic group fetched c = (panic, c)

  module _ {W S C : Type 0} ⦃f : Float W⦄ ⦃g : Gorm S⦄ (names : ProjectNames)
      (group_deadlines : String → Option (Deadlines W))
      (sort : (UserScores W → UserScores W → Bool) → List (UserScores W) → List (UserScores W))
      (cache : Cache W C) where
    unfoldable pub render_home_page : User → S → Result (ScoresPage W)
    unfolding scores_page calc_user_scores scorer_db
    render_home_page user s =
        scores_page (calc_user_scores names group_deadlines (scorer_db s) user) (some user)

    abbrev pub scores_of_found : Result User → S → Result (UserScores W)
    scores_of_found found s = do
      user ← found
      calc_user_scores names group_deadlines (scorer_db s) user

    unfoldable pub render_cheater_page : String → S → Result (ScoresPage W)
    unfolding scores_page calc_user_scores scorer_db find_user_by_gitlab_login
    render_cheater_page login s =
        let found = find_user_by_gitlab_login login s in
        scores_page (scores_of_found found s) (value_of found)

    -- `s.cache.Fetch`, with the function that computes the standings on a miss.
    unfoldable pub fetch_standings :
        String → String → Option (User → Bool) → S → C → Result (Standings W) × C
    unfolding calc_scoreboard_with_filter scorer_db reverse_scoreboard_groups
    fetch_standings group name filter s c =
        let key = "scores/" ++ (group ++ ("/" ++ name)) in
        fetched_or (cache.get key c) c (
          store_standings cache key
            (reverse_scoreboard_groups (
              value_of (
                calc_scoreboard_with_filter names group_deadlines (scorer_db s) sort group filter)))
            c)

    unfoldable pub do_render_standings_page :
        String → String → Option (User → Bool) → Cookie → S → C → Result (StandingsPage W) × C
    unfolding page_group try_find_user_by_token fetch_standings standings_page
    do_render_standings_page query name filter cookie s c =
        let group = page_group query in
        with_links (visitor_links (try_find_user_by_token cookie s)) group
          (fetch_standings group name filter s c) c

    unfoldable pub render_standings_page : String → Cookie → S → C → Result (StandingsPage W) × C
    unfolding do_render_standings_page
    render_standings_page query = do_render_standings_page query "standings" none

    unfoldable pub render_retakes_page : String → Cookie → S → C → Result (StandingsPage W) × C
    unfolding do_render_standings_page
    render_retakes_page query = do_render_standings_page query "retakes" (some (λ u. u.has_retake))

    unfoldable pub render_standings_cheater_page : String → S → Result (StandingsPage W)
    unfolding find_user_by_gitlab_login calc_scoreboard scorer_db reverse_scoreboard_groups
        make_links standings_page
    render_standings_cheater_page login s =
        let scored = calc_scoreboard names group_deadlines (scorer_db s) sort "hse" in
        do
          standings ← reverse_scoreboard_groups (value_of scored)
          links ← make_links (value_of (find_user_by_gitlab_login login s))
          ok (record (standings_page "hse" standings (some links)) { error = error_of scored })
