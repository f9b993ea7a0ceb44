-- ===== src/Deadlines/Fetcher/Run.antt =====
-- NewFetcher and Run of internal/deadlines/fetcher.go: the loop that reloads at every tick.
use notmanytask.Base.{String, ◌≡◌, ◌≢◌, refl, inl, inr, none, some, List, In, Option-cases}
use notmanytask.Base.Errors.{Result, ok, err, panic, ok_inj}
use notmanytask.Base.Float.{Float}
use notmanytask.Config.{GroupConfig}
use notmanytask.Deadlines.Types.{Deadlines}
use notmanytask.Deadlines.Fetcher.{Remote, Current, fetch, reload, group_deadlines}
use notmanytask.Deadlines.Fetcher.Reload.{IsFetched, reload_lem}

-- After a first reload without an error there have to be deadlines.
abbrev pub first_load : {W : Type 0} → Result (Unit {0}) × Current W → Result (Current W)
first_load (ok _, some m) = ok (some m)
first_load (ok _, none) = panic
first_load (err e, current) = err e
first_load (panic, current) = panic

-- The goroutine of Run with what it holds, in its loop or behind it.
pub data Fetcher (W : Type 0) : Type 0 where
  looping : Current W → Fetcher W
  finished : Current W → Fetcher W

abbrev pub held : {W : Type 0} → Fetcher W → Current W
held (looping current) = current
held (finished current) = current

module _ {W : Type 0} ⦃f : Float W⦄ (groups : List GroupConfig) where
  unfoldable pub new_fetcher : Remote W → Result (Current W)
  unfolding reload
  new_fetcher remote = first_load (reload remote groups none)

  -- At a tick the addresses may answer anything, and an error of the reload is dropped.
  pub data FetcherStep : Fetcher W → Fetcher W → Type 0 where
    tick :
        (remote : Remote W) (current : Current W)
        → (reload remote groups current).0 ≢ panic
        → FetcherStep (looping current) (looping (reload remote groups current).1)
    cancel : (current : Current W) → FetcherStep (looping current) (finished current)

  pub data FetcherSteps (c : Fetcher W) : Fetcher W → Type 0 where
    stay : FetcherSteps c c
    next : {d e : Fetcher W} → FetcherSteps c d → FetcherStep d e → FetcherSteps c e

  -- The addresses at the latest of the ticks whose reload had no error, or else those before.
  abbrev newer : Result (Unit {0}) → Remote W → Remote W → Remote W
  newer (ok _) new old = new
  newer (err e) new old = old
  newer panic new old = old

  abbrev at_step : {c d : Fetcher W} → FetcherStep c d → Remote W → Remote W
  at_step (tick remote current calm) old = newer (reload remote groups current).0 remote old
  at_step (cancel current) old = old

  abbrev pub latest : {c d : Fetcher W} → FetcherSteps c d → Remote W → Remote W
  latest stay old = old
  latest (next sts st) old = at_step st (latest sts old)

  -- Every configured group has deadlines, which an address of its name answers.
  abbrev pub Serves : Remote W → Current W → Type 0
  Serves remote current =
      (g : GroupConfig)
      → In g groups
      → (d : Deadlines W) × (h : GroupConfig) × (group_deadlines current g.name ≡ some d)
        × In h groups
        × (h.name ≡ g.name)
        × (fetch remote h.deadlines_url h.deadlines_format ≡ ok d)

  fetched-Serves :
      (remote : Remote W) (current : Current W)
      → ((name : String) → IsFetched remote (λ g. In g groups) name (group_deadlines current name))
      → Serves remote current
  fetched-Serves remote current fetched g i = elim (Option-cases (group_deadlines current g.name)) [
    | inl e ↦
        let h : IsFetched remote (λ x. In x groups) g.name none = rw e at (fetched g.name) in
        absurd (h g i refl)
    | inr (d, e) ↦ let (h, j, same, p) = rw e at (fetched g.name) in (d, h, e, j, same, p)
  ]

  newer-failed : (r : Result (Unit {0})) (new old : Remote W) → r ≢ ok tt → newer r new old ≡ old
  newer-failed (ok tt) new old failed = absurd (failed refl)
  newer-failed (err e) new old failed = refl
  newer-failed panic new old failed = refl

  reload-Serves :
      (old remote : Remote W) (current : Current W)
      → Serves old current
      → Serves (newer (reload remote groups current).0 remote old) (reload remote groups current).1
  reload-Serves old remote current s =
      let r = reload remote groups current in
      elim (reload_lem remote groups current r.1 r.0 refl) [
        | inl (done, fetched) ↦ rw done (fetched-Serves remote r.1 fetched)
        | inr (failed, same) ↦ rw (same, newer-failed r.0 remote old failed) s
      ]

  FetcherStep-Serves :
      {c d : Fetcher W} (st : FetcherStep c d) (old : Remote W)
      → Serves old (held c)
      → Serves (at_step st old) (held d)
  FetcherStep-Serves (tick remote current calm) old s = reload-Serves old remote current s
  FetcherStep-Serves (cancel current) old s = s

  FetcherSteps-Serves :
      {c d : Fetcher W} (sts : FetcherSteps c d) (old : Remote W)
      → Serves old (held c)
      → Serves (latest sts old) (held d)
  FetcherSteps-Serves stay old s = s
  FetcherSteps-Serves (next sts st) old s =
      FetcherStep-Serves st (latest sts old) (FetcherSteps-Serves sts old s)

  first_load-ok :
      (r : Result (Unit {0}) × Current W) (current : Current W)
      → first_load r ≡ ok current
      → (r.0 ≡ ok tt) × (r.1 ≡ current)
  first_load-ok (ok _, some m) current e = (refl, ok_inj _ current e)
  first_load-ok (ok _, none) current e = absurd (cc)
  first_load-ok (err x, c) current e = absurd (cc)
  first_load-ok (panic, c) current e = absurd (cc)

  -- Once NewFetcher has succeeded, and also after Run has ended, GroupDeadlines finds deadlines for
  -- every configured group, and these are what an address that the config has for a group of this name
  -- answered at the latest tick whose reload had no error, or to NewFetcher if there was no such tick:
  -- for all groups at the same one.
  pub new_fetcher-Serves :
      (remote : Remote W) (current : Current W) (c : Fetcher W)
      → new_fetcher remote ≡ ok current
      → (sts : FetcherSteps (looping current) c) → Serves (latest sts remote) (held c)
  unfolding new_fetcher
  new_fetcher-Serves remote current c e sts =
      let (done, same) = first_load-ok (reload remote groups none) current e in
      let s : Serves remote current =
        elim (reload_lem remote groups none current (ok tt) (λ k. (done k, same k))) [
          | inl (_, fetched) ↦ fetched-Serves remote current fetched
          | inr (failed, _) ↦ absurd (failed refl)
        ] in
      FetcherSteps-Serves sts remote s
