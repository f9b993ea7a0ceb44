-- ===== src/Gitlab/Projects/Maker/Limits.antt =====
-- What the loop of the maker of projects is bounded by, and how it blocks for ever.
use notmanytask.Base.{
  ℕ, suc, ◌+◌, ◌≡◌, ◌≤◌, refl, ap, ◌∙◌, Option, none, some, List, [], ◌∷◌, ◌++◌, length, arith,
  String, subst,
}
use notmanytask.Base.Errors.{ok}
use notmanytask.Base.Time.{Duration}
use notmanytask.Config.{GitLabConfig}
use notmanytask.Models.{User}
use notmanytask.Database.Gorm.{Gorm}
use notmanytask.Gitlab.Api.{GitlabApi}
use notmanytask.Gitlab.Calls.{then_call-ok}
use notmanytask.Gitlab.Projects.Maker.{initialize_missing_projects}
use notmanytask.Gitlab.Projects.Maker.Run.{
  Maker, selecting, requeueing, stopped, Timer, running, fired, spent, queue_capacity, start, Step,
  Steps,
}

abbrev ticks_left : Timer → ℕ
ticks_left running = 1
ticks_left fired = 1
ticks_left spent = 0

length-snoc : (us : List User) (u : User) → length (us ++ (u ∷ [])) ≡ suc (length us)
length-snoc [] u = refl
length-snoc (v ∷ us) u = ap suc (length-snoc us u)

record Limited {S : Type 0} (m : Maker S) : Type 0 where
  queued : length m.queue ≤ queue_capacity
  swept : m.sweeps + ticks_left m.timer ≤ 2

module _ {S : Type 0} ⦃api : GitlabApi S⦄ ⦃g : Gorm S⦄ (conf : GitLabConfig)
    (translit : String → String) (fuel : ℕ) where
  Step-Limited : (m m' : Maker S) → Step conf translit fuel m m' → Limited m → Limited m'
  Step-Limited m m' (Step.send _ u room) v = record {
    queued = omega (arith, length-snoc m.queue u);
    swept = v.swept;
  }
  Step-Limited m m' (Step.outside _ s) v = record { queued = v.queued; swept = v.swept }
  Step-Limited m m' (Step.expire _ e) v = record {
    queued = v.queued;
    swept = let h = v.swept in rw e at h;
  }
  Step-Limited m m' (Step.receive_made _ u u' q s at_select e done) v = record {
    queued = let h = v.queued in let k = rw e at h in omega arith;
    swept = v.swept;
  }
  Step-Limited m m' (Step.receive_failed _ u u' q s at_select e done) v = record {
    queued = let h = v.queued in let k = rw e at h in omega arith;
    swept = v.swept;
  }
  Step-Limited m m' (Step.requeue _ u at_requeue room) v = record {
    queued = omega (arith, length-snoc m.queue u);
    swept = v.swept;
  }
  Step-Limited m m' (Step.tick _ n s at_select e done) v = record {
    queued = v.queued;
    swept = let h = v.swept in let k = rw e at h in omega arith;
  }
  Step-Limited m m' (Step.stop _ at_select) v = record { queued = v.queued; swept = v.swept }

  Steps-Limited : (m m' : Maker S) → Steps conf translit fuel m m' → Limited m → Limited m'
  Steps-Limited m m' (Steps.finish _) v = v
  Steps-Limited m m' (Steps.further _ m2 _ st sts) v =
      Steps-Limited m2 m' sts (Step-Limited m m2 st v)

  start-Limited :
      (interval : Option Duration) (queue : List User) (s s' : S) (m : Maker S)
      → length queue ≤ queue_capacity
      → start conf translit fuel interval queue s ≡ some (ok m, s')
      → Limited m
  unfolding start
  start-Limited none queue s s' m room e =
      let same : record { phase = stopped; queue = queue; timer = spent; sweeps = 0; world = s }
          ≡ m =
        cc in
      subst Limited same (record { queued = room; swept = omega arith })
  start-Limited (some d) queue s s' m room e =
      let (n, s1, _, q) =
        then_call-ok (initialize_missing_projects conf translit fuel s) _ m s' e in
      let same : record {
        phase = selecting;
        queue = queue;
        timer = running;
        sweeps = 1;
        world = s1;
      }
          ≡ m =
        cc in
      subst Limited same (record { queued = room; swept = omega arith })

  -- From the start of Run with at most four users in the channel, however the senders, the timer and
  -- the context behave, the channel never holds more than four users and the users without a
  -- repository are swept at most twice.
  pub run-Limited :
      (interval : Option Duration) (queue : List User) (s s' : S) (m m' : Maker S)
      → length queue ≤ queue_capacity
      → start conf translit fuel interval queue s ≡ some (ok m, s')
      → Steps conf translit fuel m m'
      → (length m'.queue ≤ queue_capacity) × (m'.sweeps ≤ 2)
  run-Limited interval queue s s' m m' room e sts =
      let v = Steps-Limited m m' sts (start-Limited interval queue s s' m room e) in
      (v.queued, let h = v.swept in omega arith)

  Step-stuck :
      (m m' : Maker S) (u : User)
      → Step conf translit fuel m m'
      → m.phase ≡ requeueing u
      → length m.queue ≡ queue_capacity
      → (m'.phase ≡ requeueing u) × (m'.queue ≡ m.queue) × (m'.sweeps ≡ m.sweeps)
  Step-stuck m m' u (Step.send _ u' room) e full = absurd (omega arith)
  Step-stuck m m' u (Step.outside _ s) e full = (e, refl, refl)
  Step-stuck m m' u (Step.expire _ t) e full = (e, refl, refl)
  Step-stuck m m' u (Step.receive_made _ v v' q s at_select t done) e full = absurd (cc)
  Step-stuck m m' u (Step.receive_failed _ v v' q s at_select t done) e full = absurd (cc)
  Step-stuck m m' u (Step.requeue _ v at_requeue room) e full = absurd (omega arith)
  Step-stuck m m' u (Step.tick _ n s at_select t done) e full = absurd (cc)
  Step-stuck m m' u (Step.stop _ at_select) e full = absurd (cc)

  -- Once the loop puts a user back while the channel is full, it waits for ever: no step of it, of
  -- the senders or of the timer takes a user from the channel, starts a sweep or stops the loop.
  pub full_queue-stuck :
      (m m' : Maker S) (u : User)
      → Steps conf translit fuel m m'
      → m.phase ≡ requeueing u
      → length m.queue ≡ queue_capacity
      → (m'.phase ≡ requeueing u) × (m'.queue ≡ m.queue) × (m'.sweeps ≡ m.sweeps)
  full_queue-stuck m m' u (Steps.finish _) e full = (e, refl, refl)
  full_queue-stuck m m' u (Steps.further _ m2 _ st sts) e full =
      let (e2, q2, n2) = Step-stuck m m2 u st e full in
      let (e3, q3, n3) = full_queue-stuck m2 m' u sts e2 (ap length q2 ∙ full) in
      (e3, q3 ∙ q2, n3 ∙ n2)
