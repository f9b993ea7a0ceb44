-- ===== src/Web/Pages/Columns.antt =====
-- The columns of the standings' table: every row shows the groups of tasks in the order of the header.
use mathlib.Core.List.{reverse, reverse-cons}
use notmanytask.Base.{
  String, ◌≡◌, refl, sym, ap, subst, ◌∙◌, Bool, Option, some, List, [], ◌∷◌, ◌++◌, map, In,
  In-map_source,
}
use notmanytask.Base.Errors.{ok, wrapped, bind-ok, ok_inj}
use notmanytask.Base.Float.{Float}
use notmanytask.Models.{User}
use notmanytask.Deadlines.Types.{TaskGroup, Deadlines}
use notmanytask.Generic.Reverse.{reversed-ok}
use notmanytask.Scorer.Types.{ScoredTaskGroup, UserScores, Standings, ProjectNames, ScorerDb}
use notmanytask.Scorer.User.Totals.{SameGroups, calc_user_scores_impl-totals}
use notmanytask.Scorer.Providers.{cached_pipelines_provider, cached_flags_provider}
use notmanytask.Scorer.Board.{
  found_deadlines, filtered, standings_less, calc_all, calc_scoreboard_with_filter,
}
use notmanytask.Scorer.Board.Agreement.{calc_all-In}
use notmanytask.Web.Pages.{reverse_scores, reverse_users, reverse_scoreboard_groups}

abbrev pub header_titles : List TaskGroup → List String
header_titles groups = map (λ g. g.title) groups

abbrev pub row_titles : List ScoredTaskGroup → List String
row_titles groups = map (λ g. g.title) groups

abbrev pub Aligned : {W : Type 0} → Standings W → Type 0
Aligned {W} board =
    (row : UserScores W)
    → In row board.users
    → row_titles row.groups ≡ header_titles board.deadlines.assignments

map-app : {A B : Type 0} (f : A → B) (xs ys : List A) → map f (xs ++ ys) ≡ map f xs ++ map f ys
map-app f [] ys = refl
map-app f (x ∷ xs) ys = ap (λ zs. f x ∷ zs) (map-app f xs ys)

map-reverse : {A B : Type 0} (f : A → B) (xs : List A) → map f (reverse xs) ≡ reverse (map f xs)
map-reverse f [] = refl
map-reverse f (x ∷ xs) =
    ap (map f) (reverse-cons x xs)
    ∙ map-app f (reverse xs) (x ∷ [])
    ∙ ap (λ ys. ys ++ (f x ∷ [])) (map-reverse f xs)
    ∙ sym (reverse-cons (f x) (map f xs))

abbrev turned : {W : Type 0} → UserScores W → UserScores W
turned u = record u { groups = reverse u.groups }

pub reverse_scores-some :
    {W : Type 0} (u : UserScores W)
    → reverse_scores (some u) ≡ ok (record u { groups = reverse u.groups })
unfolding reverse_scores
reverse_scores-some u = rw (reversed-ok u.groups) refl

reverse_users-ok : {W : Type 0} (us : List (UserScores W)) → reverse_users us ≡ ok (map turned us)
unfolding reverse_users
reverse_users-ok [] = refl
reverse_users-ok (u ∷ us) = rw (reverse_scores-some u, reverse_users-ok us) refl

abbrev pub turned_board : {W : Type 0} → Standings W → Standings W
turned_board b = record {
  deadlines = record b.deadlines { assignments = reverse b.deadlines.assignments };
  users = map turned b.users;
}

pub reverse_scoreboard_groups-ok :
    {W : Type 0} (b : Standings W) → reverse_scoreboard_groups (some b) ≡ ok (turned_board b)
unfolding reverse_scoreboard_groups
reverse_scoreboard_groups-ok b =
    rw (reversed-ok b.deadlines.assignments, reverse_users-ok b.users) refl

In-map-turned :
    {W : Type 0} (us : List (UserScores W)) (v : UserScores W)
    → In v (map turned us)
    → (u : UserScores W) × In u us × (v ≡ turned u)
In-map-turned us v i = In-map_source turned v us i

pub turned-Aligned : {W : Type 0} (b : Standings W) → Aligned b → Aligned (turned_board b)
turned-Aligned b h v i =
    let (u, j, e) = In-map-turned b.users v i in
    ap (λ x. row_titles x.groups) e
    ∙ map-reverse (λ g. g.title) u.groups
    ∙ ap reverse (h u j)
    ∙ sym (map-reverse (λ g. g.title) b.deadlines.assignments)

SameGroups-titles :
    (gs : List TaskGroup) (qs : List ScoredTaskGroup)
    → SameGroups gs qs
    → row_titles qs ≡ header_titles gs
SameGroups-titles [] [] h = refl
SameGroups-titles [] (q ∷ qs) h = absurd h
SameGroups-titles (g ∷ gs) [] h = absurd h
SameGroups-titles (g ∷ gs) (q ∷ qs) (title, _, _, _, _, h) =
    let rest = SameGroups-titles gs qs h in cc

module _ {W : Type 0} ⦃f : Float W⦄ (names : ProjectNames)
    (group_deadlines : String → Option (Deadlines W))
    (sort : (UserScores W → UserScores W → Bool) → List (UserScores W) → List (UserScores W))
    (sort-In : (less : UserScores W → UserScores W → Bool) (xs : List (UserScores W))
        (x : UserScores W)
      → In x (sort less xs)
      → In x xs) where
  pub scoreboard-Aligned :
      (db : ScorerDb) (group : String) (filter : Option (User → Bool)) (board : Standings W)
      → calc_scoreboard_with_filter names group_deadlines db sort group filter ≡ ok board
      → Aligned board
  unfolding calc_scoreboard_with_filter
  scoreboard-Aligned db group filter board e row i =
      let (d, found, e1) = bind-ok (found_deadlines (group_deadlines group)) _ board e in
      let (users, listed, e2) = bind-ok (db.list_group_users group) _ board e1 in
      let (P, got_p, e3) = bind-ok (cached_pipelines_provider db.list_all_pipelines) _ board e2 in
      let (F, got_f, e4) = bind-ok (cached_flags_provider db.list_submitted_flags) _ board e3 in
      let (os, got_o, e5) =
        bind-ok (wrapped "failed to list all overrides" db.list_overrides) _ board e4 in
      let (scores, ran, e6) =
        bind-ok (calc_all names d P F os (filtered filter users)) _ board e5 in
      let in_scores : In row scores =
        sort-In standings_less scores row
          (subst (λ (b : Standings W). In row b.users) (sym (ok_inj _ board e6)) i) in
      let (user, _, scored) =
        calc_all-In names os d P F (filtered filter users) scores row ran in_scores in
      SameGroups-titles d.assignments row.groups
        (calc_user_scores_impl-totals names d user P F os row scored).0
      ∙ ap (λ (b : Standings W). header_titles b.deadlines.assignments) (ok_inj _ board e6)
