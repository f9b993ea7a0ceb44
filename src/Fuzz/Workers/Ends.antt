-- ===== src/Fuzz/Workers/Ends.antt =====
-- How RunFuzzing comes to its end.
use notmanytask.Base.{
  ℕ, zero, suc, ◌+◌, ◌≡◌, ◌≤◌, refl, ap, sym, ◌∙◌, inl, inr, String, Bool, true, false, Option,
  some, List, [], ◌∷◌, length, get_elem?, set, Dict, In, arith,
}
use notmanytask.Fuzz.{SolutionInfo}
use notmanytask.Fuzz.Bot.{TgBot}
use notmanytask.Fuzz.Workers.{
  Worker, Fuzzing, FuzzStep, FuzzSteps, WorkerStep, Counters, gone, new_workers, start_workers,
  stay, next,
}
use notmanytask.Fuzz.Workers.Counts.{
  total, All, total-set, All-set, All-get_elem?, runs, waits, passes, fails, finishes, IsKnown,
  IsHonest, WorkerStep-Turns, stage_runs, stage_waits, result_passes, result_fails,
}

-- The solutions that the goroutines were started for.
abbrev entries : List Worker → Dict String SolutionInfo
entries [] = []
entries (w ∷ ws) = (w.solution, w.info) ∷ entries ws

total-le :
    (f : Worker → ℕ) (ws : List Worker) (id : ℕ) (w : Worker)
    → get_elem? ws id ≡ some w
    → f w ≤ total f ws
total-le f [] id w e = absurd (cc)
total-le f (v ∷ ws) zero w e = let same : v ≡ w = cc in let h = ap f same in omega arith
total-le f (v ∷ ws) (suc id) w e = omega (arith, total-le f ws id w e)

entries-set :
    (ws : List Worker) (id : ℕ) (w w' : Worker)
    → get_elem? ws id ≡ some w
    → w'.solution ≡ w.solution
    → w'.info ≡ w.info
    → entries (set ws id w') ≡ entries ws
entries-set [] id w w' e s i = absurd (cc)
entries-set (v ∷ ws) zero w w' e s i = let same : v ≡ w = cc in cc
entries-set (v ∷ ws) (suc id) w w' e s i =
    ap (λ rest. (v.solution, v.info) ∷ rest) (entries-set ws id w w' e s i)

result_one :
    (passed : Bool) (o : Option Bool) → o ≡ some passed → result_fails o + result_passes o ≡ 1
result_one true o e = rw e (omega arith)
result_one false o e = rw e (omega arith)

module _ (api : TgBot) (bot : Option (Unit {0})) (task : String) where
  WorkerStep-same :
      {w w' : Worker} {c c' : Counters}
      → WorkerStep api bot task w c w' c'
      → (w'.solution ≡ w.solution) × (w'.info ≡ w.info)
  WorkerStep-same (WorkerStep.begin e) = (refl, refl)
  WorkerStep-same (WorkerStep.run_ends passed link e l) = (refl, refl)
  WorkerStep-same (WorkerStep.link_panics e l) = (refl, refl)
  WorkerStep-same (WorkerStep.tell passed link spent counts m e q l n) = (refl, refl)
  WorkerStep-same (WorkerStep.notice_panics passed link spent counts e q l n) = (refl, refl)
  WorkerStep-same (WorkerStep.group_done panicked e) = (refl, refl)
  WorkerStep-same (WorkerStep.options_panic x e) = (refl, refl)
  WorkerStep-same (WorkerStep.running_sub panicked e) = (refl, refl)

  record IsCounted (bins : Dict String SolutionInfo) (f : Fuzzing) : Type 0 where
    started : entries f.workers ≡ bins
    run_count : f.counters.running ≡ total runs f.workers
    pass_count : f.counters.succeeded ≡ total passes f.workers
    fail_count : f.counters.failed ≡ total fails f.workers
    wait_count : f.counters.group ≡ total waits f.workers
    honest : All (IsHonest api bot task) f.workers

  FuzzStep-IsCounted :
      {bins : Dict String SolutionInfo} {f g : Fuzzing}
      → FuzzStep api bot task f g
      → IsCounted bins f
      → IsCounted bins g
  FuzzStep-IsCounted {bins} {f} (FuzzStep.turn id w w' c' live e st) h =
      let same = WorkerStep-same st in
      let t =
        WorkerStep-Turns api bot task st
          (All-get_elem? (IsHonest api bot task) f.workers id w e h.honest)
          (let a = total-le runs f.workers id w e in omega (arith, h.run_count))
          (let a = total-le waits f.workers id w e in omega (arith, h.wait_count)) in
      record {
        started = entries-set f.workers id w w' e same.0 same.1 ∙ h.started;
        run_count = omega (arith, total-set runs f.workers id w w' e, t.run_turn, h.run_count);
        pass_count = omega (arith, total-set passes f.workers id w w' e, t.pass_turn, h.pass_count);
        fail_count = omega (arith, total-set fails f.workers id w w' e, t.fail_turn, h.fail_count);
        wait_count = omega (arith, total-set waits f.workers id w w' e, t.wait_turn, h.wait_count);
        honest = All-set (IsHonest api bot task) f.workers id w' t.honest_turn h.honest;
      }
  FuzzStep-IsCounted (FuzzStep.crash id w e l) h = record {
    started = h.started;
    run_count = h.run_count;
    pass_count = h.pass_count;
    fail_count = h.fail_count;
    wait_count = h.wait_count;
    honest = h.honest;
  }

  FuzzSteps-IsCounted :
      {bins : Dict String SolutionInfo} {f g : Fuzzing}
      → FuzzSteps api bot task f g
      → IsCounted bins f
      → IsCounted bins g
  FuzzSteps-IsCounted stay h = h
  FuzzSteps-IsCounted (next sts st) h = FuzzStep-IsCounted st (FuzzSteps-IsCounted sts h)

  new_workers-counts :
      (bins : Dict String SolutionInfo)
      → (entries (new_workers bins) ≡ bins)
        × (total runs (new_workers bins) ≡ 0)
        × (total passes (new_workers bins) ≡ 0)
        × (total fails (new_workers bins) ≡ 0)
        × (total waits (new_workers bins) ≡ length bins)
        × All (IsHonest api bot task) (new_workers bins)
  new_workers-counts [] = (refl, refl, refl, refl, refl, tt)
  new_workers-counts ((solution, info) ∷ bins) =
      let (e, r, p, f, g, h) = new_workers-counts bins in
      (
        ap (λ rest. (solution, info) ∷ rest) e,
        omega arith,
        omega arith,
        omega arith,
        omega arith,
        (record { unrun = λ _. refl; agrees = refl; told = λ t. absurd (cc) }, h),
      )

  start_workers-IsCounted : (bins : Dict String SolutionInfo) → IsCounted bins (start_workers bins)
  unfolding start_workers
  start_workers-IsCounted bins =
      let (e, r, p, f, g, h) = new_workers-counts bins in
      record {
        started = e;
        run_count = sym r;
        pass_count = sym p;
        fail_count = sym f;
        wait_count = sym g;
        honest = h;
      }

  -- When all goroutines have come to their end.
  gone_counts :
      (ws : List Worker)
      → All (IsHonest api bot task) ws
      → All (λ w. w.stage ≡ gone false) ws
      → (total runs ws ≡ 0)
        × (total waits ws ≡ 0)
        × (total fails ws + total passes ws ≡ length (entries ws))
        × (total passes ws ≡ total finishes ws)
        × ((solution : String) (info : SolutionInfo)
            → In (solution, info) (entries ws)
            → IsKnown info)
  gone_counts [] h g = (refl, refl, refl, refl, λ solution info i. absurd i)
  gone_counts (w ∷ ws) h g =
      let (r, u, n, f, k) = gone_counts ws h.1 g.1 in
      let a = ap stage_runs g.0 in
      let b = ap stage_waits g.0 in
      let (known, (passed, q)) = h.0.told (rw g.0 refl) in
      let d = h.0.agrees in
      let one = result_one passed w.result q in
      (
        omega arith,
        omega arith,
        omega arith,
        omega arith,
        λ solution info i. elim i [
          | inl e ↦
              let same : info ≡ w.info = ap (λ (x : String × SolutionInfo). x.1) e in rw same known
          | inr j ↦ k solution info j
        ],
      )

  -- If all goroutines come to their end without a panic, in whatever order they take their turns, then no fuzzer is
  -- counted as running, wg.Wait does not wait, each solution is counted once, as failed or as
  -- succeeded, as many are reported as finished as are counted as succeeded, and the user of each
  -- solution is known, with a GitLab login and a Telegram account. So they do not all come to
  -- such an end if the user of one solution has no Telegram account or is unknown.
  pub fuzzing-ends :
      (bins : Dict String SolutionInfo) (f : Fuzzing)
      → FuzzSteps api bot task (start_workers bins) f
      → All (λ w. w.stage ≡ gone false) f.workers
      → (f.counters.running ≡ 0)
        × (f.counters.group ≡ 0)
        × (f.counters.failed + f.counters.succeeded ≡ length bins)
        × (f.counters.succeeded ≡ total finishes f.workers)
        × ((solution : String) (info : SolutionInfo) → In (solution, info) bins → IsKnown info)
  fuzzing-ends bins f sts g =
      let h = FuzzSteps-IsCounted sts (start_workers-IsCounted bins) in
      let (r, u, n, p, k) = gone_counts f.workers h.honest g in
      let m = ap length h.started in
      (
        h.run_count ∙ r,
        h.wait_count ∙ u,
        omega (arith, h.fail_count, h.pass_count),
        h.pass_count ∙ p,
        λ solution info i. k solution info (rw h.started i),
      )
