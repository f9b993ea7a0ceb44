-- ===== src/Scorer/Board/Rows.antt =====
-- Each row of the standings is what CalcUserScores answers for a user of the group.
use mathlib.Core.Path.{fun_ext}
use notmanytask.Base.{
  String, ◌≡◌, sym, ap, subst, ◌∙◌, Bool, Option, some, List, select, In, In-select,
}
use notmanytask.Base.Errors.{Result, ok, wrapped, ◌>>=◌, bind-ok, wrapped-ok, ok_inj}
use notmanytask.Base.Float.{Float}
use notmanytask.Models.{User, Pipeline, Flag, OverriddenScore}
use notmanytask.Deadlines.Types.{Deadlines}
use notmanytask.Scorer.Types.{UserScores, Standings, ProjectNames, ScorerDb}
use notmanytask.Scorer.User.{calc_user_scores_impl}
use notmanytask.Scorer.Providers.{cached_pipelines_provider, cached_flags_provider}
use notmanytask.Scorer.Providers.Laws.{cached_pipelines_provider_lem, cached_flags_provider_lem}
use notmanytask.Scorer.Board.{
  found_deadlines, filtered, standings_less, calc_all, calc_scoreboard_with_filter,
  calc_user_scores,
}
use notmanytask.Scorer.Board.Agreement.{
  of_login, SameRows, impl-Agree, impl-login, calc_all-In, deref-some,
}

bind-step : {A B : Type 0} (m : Result A) (a : A) (k : A → Result B) → m ≡ ok a → (m >>= k) ≡ k a
bind-step m a k e = ap (λ x. x >>= k) e

In-filtered :
    (filter : Option (User → Bool)) (users : List User) (u : User)
    → In u (filtered filter users)
    → In u users
In-filtered Option.none users u i = i
In-filtered (some p) users u i = ((In-select p u users).0 i).0

module _ {W : Type 0} ⦃f : Float W⦄ (names : ProjectNames)
    (group_deadlines : String → Option (Deadlines W)) (db : ScorerDb) (ps : List Pipeline)
    (fs : List Flag) (os : List OverriddenScore) (rows : SameRows db ps fs os) where
  same_pipelines : cached_pipelines_provider db.list_all_pipelines ≡ ok db.list_project_pipelines
  same_pipelines =
      let (provider, run, answers) = cached_pipelines_provider_lem ps in
      ap cached_pipelines_provider rows.all_pipelines
      ∙ run
      ∙ ap ok (fun_ext (λ project. answers project ∙ sym (rows.project_pipelines project)))

  same_flags : cached_flags_provider db.list_submitted_flags ≡ ok db.list_user_flags
  same_flags =
      let (provider, run, answers) = cached_flags_provider_lem fs rows.linked in
      ap cached_flags_provider rows.submitted_flags
      ∙ run
      ∙ ap ok (fun_ext (λ login. answers login ∙ sym (rows.user_flags login)))

  -- With all overrides in place of the user's, CalcUserScores answers the same.
  calc_user_scores-all :
      (d : Deadlines W) (user : User) (row : UserScores W)
      → found_deadlines (group_deadlines user.group_name) ≡ ok d
      → calc_user_scores_impl names d user db.list_project_pipelines db.list_user_flags os ≡ ok row
      → calc_user_scores names group_deadlines db user ≡ ok row
  unfolding calc_user_scores
  calc_user_scores-all d user row found e =
      let (login, has) = impl-login names os d user _ _ row e in
      bind-step _ d _ found
      ∙ deref-some user.gitlab_login login has _
      ∙ bind-step _ (select (of_login login) os) _
          (ap (wrapped "failed to list user overrides") (rows.user_overrides login))
      ∙ sym (impl-Agree names db ps fs os rows d user login has)
      ∙ e

  same_scores :
      (d : Deadlines W) (user : User) (P : String → Result (List Pipeline))
      (F : String → Result (List Flag)) (os' : List OverriddenScore)
      → P ≡ db.list_project_pipelines
      → F ≡ db.list_user_flags
      → os' ≡ os
      → calc_user_scores_impl names d user db.list_project_pipelines db.list_user_flags os
        ≡ calc_user_scores_impl names d user P F os'
  same_scores d user P F os' p f' o k =
      calc_user_scores_impl names d user (sym p k) (sym f' k) (sym o k)

  -- If the queries for one project or login answer the rows of the listings that are of it, in the
  -- listed order, users listed for a group are of that group and sorting adds no rows, then each row
  -- of a scoreboard that was computed is what CalcUserScores answers for a user listed for the group.
  pub scoreboard_row-calc_user_scores :
      ((group : String) (users : List User)
        → db.list_group_users group ≡ ok users
        → (u : User) → In u users
        → u.group_name ≡ group)
      → (sort : (UserScores W → UserScores W → Bool) → List (UserScores W) → List (UserScores W))
      → ((less : UserScores W → UserScores W → Bool) (xs : List (UserScores W)) (x : UserScores W)
          → In x (sort less xs)
          → In x xs)
      → (group : String) (filter : Option (User → Bool)) (board : Standings W)
      → calc_scoreboard_with_filter names group_deadlines db sort group filter ≡ ok board
      → (row : UserScores W) → In row board.users
      → (users : List User) × (db.list_group_users group ≡ ok users)
        × (user : User) × In user users
        × (calc_user_scores names group_deadlines db user ≡ ok row)
  unfolding calc_scoreboard_with_filter
  scoreboard_row-calc_user_scores of_group sort sort-In group filter board e row i =
      let (d, found, e1) = bind-ok (found_deadlines (group_deadlines group)) _ board e in
      let (users, listed, e2) = bind-ok (db.list_group_users group) _ board e1 in
      let (P, got_p, e3) = bind-ok (cached_pipelines_provider db.list_all_pipelines) _ board e2 in
      let (F, got_f, e4) = bind-ok (cached_flags_provider db.list_submitted_flags) _ board e3 in
      let (os', got_o, e5) =
        bind-ok (wrapped "failed to list all overrides" db.list_overrides) _ board e4 in
      let (scores, ran, e6) =
        bind-ok (calc_all names d P F os' (filtered filter users)) _ board e5 in
      let in_scores : In row scores =
        sort-In standings_less scores row
          (subst (λ (b : Standings W). In row b.users) (sym (ok_inj _ board e6)) i) in
      let same_p : P ≡ db.list_project_pipelines = ok_inj P _ (sym got_p ∙ same_pipelines) in
      let same_f : F ≡ db.list_user_flags = ok_inj F _ (sym got_f ∙ same_flags) in
      let same_o : os' ≡ os = ok_inj os' os (sym (wrapped-ok _ _ os' got_o) ∙ rows.overrides) in
      let (user, in_users, scored) =
        calc_all-In names os' d P F (filtered filter users) scores row ran in_scores in
      (
        users,
        listed,
        user,
        In-filtered filter users user in_users,
        calc_user_scores-all d user row
            (ap (λ g. found_deadlines (group_deadlines g))
                (of_group group users listed user (In-filtered filter users user in_users))
              ∙ found)
            (same_scores d user P F os' same_p same_f same_o ∙ scored),
      )
