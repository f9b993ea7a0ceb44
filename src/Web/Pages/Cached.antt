-- ===== src/Web/Pages/Cached.antt =====
-- The standings that are cached and shown have aligned columns.
use Prim.Native.String.{◌++◌}
use notmanytask.Base.{
  ℕ, String, ◌≡◌, refl, sym, ap, subst, ◌∙◌, ◌⊎◌, inl, inr, Bool, Option, none, some, List, In,
}
use notmanytask.Base.Errors.{Result, ok, err, panic, ok_inj}
use notmanytask.Base.Float.{Float}
use notmanytask.Config.{Config}
use notmanytask.Models.{User}
use notmanytask.Database.Gorm.{Gorm}
use notmanytask.Deadlines.Types.{Deadlines}
use notmanytask.Scorer.Types.{UserScores, Standings, ProjectNames}
use notmanytask.Scorer.Board.{calc_scoreboard_with_filter}
use notmanytask.Web.Session.{Cookie, try_find_user_by_token}
use notmanytask.Web.Wiring.{scorer_db}
use notmanytask.Web.Pages.{
  reverse_scoreboard_groups, value_of, Cache, store_standings, page_group, visitor_links,
  fetched_or, with_links, fetch_standings, do_render_standings_page, standings_page, StandingsPage,
  Links,
}
use notmanytask.Web.Pages.Columns.{
  Aligned, turned-Aligned, scoreboard-Aligned, reverse_scoreboard_groups-ok,
}

-- What the cache documents: a key holds what was put under some key, or what it held before.
pub record CacheLaws {W C : Type 0} (cache : Cache W C) : Type 0 where
  pub get-put :
      (key key' : String) (ttl : ℕ) (v : Standings W) (c : C) (found : Standings W)
      → cache.get key' (cache.put key ttl v c) ≡ some found
      → (found ≡ v) ⊎ (cache.get key' c ≡ some found)

abbrev pub AllAligned : {W C : Type 0} → Cache W C → C → Type 0
AllAligned {W} cache c = (key : String) (v : Standings W) → cache.get key c ≡ some v → Aligned v

module _ {W C : Type 0} (cache : Cache W C) (laws : CacheLaws cache) where
  store_standings-AllAligned :
      (key : String) (r : Result (Standings W)) (c : C)
      → ((v : Standings W) → r ≡ ok v → Aligned v)
      → AllAligned cache c
      → AllAligned cache (store_standings cache key r c).1
  store_standings-AllAligned key (ok v) c h all key' found e =
      elim (laws.get-put key key' 10 v c found e) [
        | inl same ↦ subst Aligned (sym same) (h v refl)
        | inr old ↦ all key' found old
      ]
  store_standings-AllAligned key (err x) c h all key' found e = all key' found e
  store_standings-AllAligned key panic c h all key' found e = all key' found e

  store_standings-result :
      (key : String) (r : Result (Standings W)) (c : C) → (store_standings cache key r c).0 ≡ r
  store_standings-result key (ok v) c = refl
  store_standings-result key (err x) c = refl
  store_standings-result key panic c = refl

  -- The cache and the standings that a request ends with.
  abbrev Safe : Result (Standings W) × C → Type 0
  Safe q = AllAligned cache q.1 × ((v : Standings W) → q.0 ≡ ok v → Aligned v)

  store_standings-Safe :
      (key : String) (r : Result (Standings W)) (c : C)
      → ((v : Standings W) → r ≡ ok v → Aligned v)
      → AllAligned cache c
      → Safe (store_standings cache key r c)
  store_standings-Safe key r c h all = (
    store_standings-AllAligned key r c h all,
    λ v e. h v (sym (store_standings-result key r c) ∙ e),
  )

  fetched_or-Safe :
      (key : String) (hit : Option (Standings W)) (c : C) (missed : Result (Standings W) × C)
      → cache.get key c ≡ hit
      → AllAligned cache c
      → Safe missed
      → Safe (fetched_or hit c missed)
  fetched_or-Safe key (some v) c missed e all safe =
      (all, λ v' q. all key v' (e ∙ ap some (ok_inj v v' q)))
  fetched_or-Safe key none c missed e all safe = safe

computed-Aligned :
    {W : Type 0} (r : Result (Standings W))
    → ((b : Standings W) → r ≡ ok b → Aligned b)
    → (v : Standings W) → reverse_scoreboard_groups (value_of r) ≡ ok v
    → Aligned v
unfolding reverse_scoreboard_groups
computed-Aligned (ok b) h v e =
    subst Aligned (ok_inj _ v (sym (reverse_scoreboard_groups-ok b) ∙ e))
      (turned-Aligned b (h b refl))
computed-Aligned (err x) h v e = absurd (cc)
computed-Aligned panic h v e = absurd (cc)

abbrev PageAligned : {W : Type 0} → StandingsPage W → Type 0
PageAligned page = Aligned page.standings

with_links-Aligned :
    (conf : Config) (translit : String → String) {W C : Type 0} (cache : Cache W C)
    (laws : CacheLaws cache) (links : Result (Option Links)) (group : String)
    (fetched : Result (Standings W) × C) (c : C)
    → AllAligned cache c
    → Safe cache laws fetched
    → let (r, c') = with_links conf translit links group fetched c in
      AllAligned cache c' × ((page : StandingsPage W) → r ≡ ok page → Aligned page.standings)
unfolding standings_page
with_links-Aligned conf translit cache laws (ok links) group (ok v, c') c all safe =
    (safe.0, λ page e. subst PageAligned (ok_inj _ page e) (safe.1 v refl))
with_links-Aligned conf translit cache laws (ok links) group (err x, c') c all safe =
    (safe.0, λ page e row i. absurd (cc))
with_links-Aligned conf translit cache laws (ok links) group (panic, c') c all safe =
    (safe.0, λ page e row i. absurd (cc))
with_links-Aligned conf translit cache laws (err x) group fetched c all safe =
    (all, λ page e row i. absurd (cc))
with_links-Aligned conf translit cache laws panic group fetched c all safe =
    (all, λ page e row i. absurd (cc))

module _ (conf : Config) (translit : String → String) {W S C : Type 0} ⦃f : Float W⦄ ⦃g : Gorm S⦄
    (names : ProjectNames) (group_deadlines : String → Option (Deadlines W))
    (sort : (UserScores W → UserScores W → Bool) → List (UserScores W) → List (UserScores W))
    (sort-In : (less : UserScores W → UserScores W → Bool) (xs : List (UserScores W))
        (x : UserScores W)
      → In x (sort less xs)
      → In x xs)
    (cache : Cache W C) (laws : CacheLaws cache) where
  fetch_standings-Safe :
      (group name : String) (filter : Option (User → Bool)) (s : S) (c : C)
      → AllAligned cache c
      → Safe cache laws
          (fetch_standings conf translit names group_deadlines sort cache group name filter s c)
  unfolding fetch_standings
  fetch_standings-Safe group name filter s c all =
      let key = "scores/" ++ (group ++ ("/" ++ name)) in
      fetched_or-Safe cache laws key (cache.get key c) c _ refl all (
        store_standings-Safe cache laws key _ c
          (computed-Aligned
            (calc_scoreboard_with_filter names group_deadlines (scorer_db s) sort group filter)
            (scoreboard-Aligned names group_deadlines sort sort-In (scorer_db s) group filter))
          all)

  -- Where sorting adds no rows and the cache returns only what was put into it, if in every cached
  -- standings each row shows the titles of its groups in the order of the header's assignments, the
  -- same holds of every cached standings after a request for the standings or for the retakes, and
  -- of the page that is shown.
  pub do_render_standings_page-Aligned :
      (query name : String) (filter : Option (User → Bool)) (cookie : Cookie) (s : S) (c : C)
      → AllAligned cache c
      → AllAligned cache
          (do_render_standings_page conf translit names group_deadlines sort cache query name filter
            cookie s c).1
        × ((page : StandingsPage W)
            → (do_render_standings_page conf translit names group_deadlines sort cache query name
                filter cookie s c).0
              ≡ ok page
            → Aligned page.standings)
  unfolding do_render_standings_page
  do_render_standings_page-Aligned query name filter cookie s c all =
      let group = page_group conf translit query in
      with_links-Aligned conf translit cache laws
        (visitor_links conf translit (try_find_user_by_token cookie s)) group _ c all
        (fetch_standings-Safe group name filter s c all)
