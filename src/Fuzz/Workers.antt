-- ===== src/Fuzz/Workers.antt =====
-- RunFuzzing of cmd/fuzz/main.go: the goroutines that run the solutions, beside each other.
pub mod Counts
pub mod Ends
use notmanytask.Base.{
  ℕ, zero, suc, ◌+◌, ◌-◌, ◌≡◌, String, Bool, true, false, Option, none, some, List, [], ◌∷◌, length,
  get_elem?, set, Dict,
}
use notmanytask.Base.Errors.{Error, Result, ok, err, panic, ◌>>=◌}
use notmanytask.Client.{Transport}
use notmanytask.Fuzz.{Args, Machine, SolutionInfo, build_submits}
use notmanytask.Fuzz.Bot.{TgBot, MessageBuilder, new_bot, user_link, notice}

-- Where the goroutine of a solution is: before its first line, while the fuzzer runs, before its
-- message, before the deferred wg.Done and running.Sub, between the two, and behind. A goroutine that
-- panics runs the deferred calls too, which the Bool remembers.
pub data Stage : Type 0 where
  created : Stage
  fuzzing : Stage
  counted : Stage
  leaving : Bool → Stage
  left : Bool → Stage
  gone : Bool → Stage

-- `result` is the counter that the solution was counted in, true for `succeeded`, `finished` what its
-- pointer in `stats` shows.
pub record Worker : Type 0 where
  pub solution : String
  pub info : SolutionInfo
  pub stage : Stage
  pub result : Option Bool
  pub finished : Bool

pub record Counters : Type 0 where
  pub running : ℕ
  pub failed : ℕ
  pub succeeded : ℕ
  pub group : ℕ

pub record Fuzzing : Type 0 where
  pub workers : List Worker
  pub counters : Counters
  pub alive : Bool

abbrev pub new_workers : Dict String SolutionInfo → List Worker
new_workers [] = []
new_workers ((solution, info) ∷ bins) =
    record { solution = solution; info = info; stage = created; result = none; finished = false }
    ∷ new_workers bins

-- The goroutines for the solutions, when none has begun.
unfoldable pub start_workers : Dict String SolutionInfo → Fuzzing
start_workers bins = record {
  workers = new_workers bins;
  counters = record { running = 0; failed = 0; succeeded = 0; group = length bins };
  alive = true;
}

-- RunFuzzing as far as the goroutines.
unfoldable pub run_fuzzing :
    {W : Type 0} → TgBot → String → Machine → Transport W → Args → Result Fuzzing
unfolding new_bot build_submits start_workers
run_fuzzing api token machine t args = do
  bot ← new_bot api token
  bins ← build_submits machine t args
  ok (start_workers bins)

abbrev pub count_result : Bool → Counters → Counters
count_result true c = record c { succeeded = c.succeeded + 1 }
count_result false c = record c { failed = c.failed + 1 }

module _ (api : TgBot) (bot : Option (Unit {0})) (task : String) where
  -- One goroutine goes on. `options_panic` is an error of os.Create for one of
  -- its two files or of filepath.Abs; `link_panics` and `notice_panics` follow a nil pointer of the user.
  pub data WorkerStep (w : Worker) (c : Counters) : Worker → Counters → Type 0 where
    begin :
        w.stage ≡ created
        → WorkerStep w c (record w { stage = fuzzing }) (record c { running = c.running + 1 })
    options_panic :
        (e : Error) → w.stage ≡ fuzzing → WorkerStep w c (record w { stage = leaving true }) c
    run_ends :
        (passed : Bool) (link : String)
        → w.stage ≡ fuzzing
        → user_link api w.info.user ≡ ok link
        → WorkerStep w c
            (record w { stage = counted; result = some passed; finished = passed })
            (count_result passed c)
    link_panics :
        w.stage ≡ fuzzing
        → user_link api w.info.user ≡ panic
        → WorkerStep w c (record w { stage = leaving true }) c
    tell :
        (passed : Bool) (link spent counts : String) (m : Option MessageBuilder)
        → w.stage ≡ counted
        → w.result ≡ some passed
        → user_link api w.info.user ≡ ok link
        → notice api bot task w.info.user link passed spent counts ≡ ok m
        → WorkerStep w c (record w { stage = leaving false }) c
    notice_panics :
        (passed : Bool) (link spent counts : String)
        → w.stage ≡ counted
        → w.result ≡ some passed
        → user_link api w.info.user ≡ ok link
        → notice api bot task w.info.user link passed spent counts ≡ panic
        → WorkerStep w c (record w { stage = leaving true }) c
    group_done :
        (panicked : Bool)
        → w.stage ≡ leaving panicked
        → WorkerStep w c (record w { stage = left panicked }) (record c { group = c.group - 1 })
    running_sub :
        (panicked : Bool)
        → w.stage ≡ left panicked
        → WorkerStep w c (record w { stage = gone panicked }) (record c { running = c.running - 1 })

  -- A goroutine that has panicked ends the process once its deferred calls have run.
  pub data FuzzStep (f : Fuzzing) : Fuzzing → Type 0 where
    turn :
        (id : ℕ) (w w' : Worker) (c' : Counters)
        → f.alive ≡ true
        → get_elem? f.workers id ≡ some w
        → WorkerStep w f.counters w' c'
        → FuzzStep f (record f { workers = set f.workers id w'; counters = c' })
    crash :
        (id : ℕ) (w : Worker)
        → get_elem? f.workers id ≡ some w
        → w.stage ≡ gone true
        → FuzzStep f (record f { alive = false })

  pub data FuzzSteps (f : Fuzzing) : Fuzzing → Type 0 where
    stay : FuzzSteps f f
    next : {g h : Fuzzing} → FuzzSteps f g → FuzzStep g h → FuzzSteps f h
