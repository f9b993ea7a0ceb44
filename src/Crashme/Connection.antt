-- ===== src/Crashme/Connection.antt =====
-- doHandleConnection of cmd/crashme/main.go: what one connection makes the service do, in order.
pub mod Laws
use Prim.Native.Char.{Char, code}
use Prim.Native.String.{[], ◌∷◌, ◌++◌ as append}
use notmanytask.Base.{
  ℕ, String, Bool, true, false, List, ◌++◌, eqb, ltb, ◌==◌, string_eq, if◌then◌else◌,
}
use notmanytask.Base.Errors.{Error, Result, ok, err, panic, new, wrapped, error_text}
use notmanytask.Crashme.Line.{Reading, slow_read_first_line}
use notmanytask.Web.Api.{FlagRequest}
use notmanytask.Crashme.Flag.{FlagFetcher, FlagResponse, fetch_flag}
use mathlib.Core.List

-- What os.Stat tells of a path.
pub data Stat : Type 0 where
  not_exist : Stat
  stat_failed : Error → Stat
  regular : Stat
  directory : Stat
  irregular : Stat

unfoldable pub is_regular_file : Stat → Bool
is_regular_file regular = true
is_regular_file _ = false

unfoldable pub is_directory : Stat → Bool
is_directory directory = true
is_directory _ = false

pub record Checker : Type 0 where
  pub binaries_directory : String
  pub submits_directory : String
  pub permits : ℕ
  pub flag_fetcher : FlagFetcher

-- `made` is what os.MkdirAll answers for the submits.
unfoldable pub new_checker :
    Result (Unit {0}) → (String → Stat) → String → String → ℕ → String → String → Result Checker
unfolding is_directory
new_checker (ok _) stat binaries submits level url token =
    if is_directory (stat binaries)
    then ok (record {
      binaries_directory = binaries;
      submits_directory = submits;
      permits = level;
      flag_fetcher = record { url = url; token = token };
    })
    else err (new "binaries directory does not exist")
new_checker (err e) stat binaries submits level url token =
    err (Error.wrap "failed to mkdir submits directory" e)
new_checker panic stat binaries submits level url token = panic

-- strings.ReplaceAll for two characters.
unfoldable pub replace_char : ℕ → Char → String → String
replace_char old new_char [] = []
replace_char old new_char (c ∷ s) =
    (if eqb (code c) old then new_char else c) ∷ replace_char old new_char s

-- The last part between slashes that is not empty: `current` has begun, `last` stands before it.
unfoldable pub last_part : String → String → String → String
last_part last current [] = if current == "" then last else current
last_part last current (c ∷ s) =
    if eqb (code c) b'/'
    then last_part (if current == "" then last else current) "" s
    else last_part last (append current (c ∷ [])) s

-- filepath.Base
unfoldable pub base : String → String
unfolding last_part
base [] = "."
base (c ∷ s) = let name = last_part "" "" (c ∷ s) in if name == "" then "/" else name

pub data Event : Type 0 where
  acquired : Event
  released : Event
  wrote : String → Event
  created : String → Event
  ran : String → Event
  fetched : String → Event
  closed : Event

-- What the command's end is: an exec.ExitError has its state, and says whether SIGINT ended it.
pub data Exit : Type 0 where
  finished : Exit
  exited : Bool → String → Exit
  broken : Error → Exit

-- The machine and the services around the checker. `run` gets the rest of the connection, of which
-- the program lets through 10 MiB at most. `stamp` is the text of time.Now(),
-- `more_tries` the tries for a flag that fit into its time after the first.
pub record Host : Type 0 where
  pub join : String → String → String
  pub stat : String → Stat
  pub create : String → Result (Unit {0})
  pub prepare : String → Result (Unit {0})
  pub run : String → List Reading → Exit
  pub write : String → Result (Unit {0})
  pub post : ℕ → String → FlagRequest → Result String
  pub unmarshal : String → Result FlagResponse
  pub more_tries : ℕ
  pub trim : List ℕ → String
  pub stamp : String

abbrev pub Served : Type 0 → Type 0
Served A = Result A × List Event

abbrev pub events_of : {A : Type 0} → Served A → List Event
events_of (r, es) = es

infixl 5 ◌>>=◌ ◌>>◌
unfoldable pub ◌>>=◌ : {A B : Type 0} → Served A → (A → Served B) → Served B
(ok a, es) >>= k = let (r, es') = k a in (r, es ++ es')
(err e, es) >>= k = (err e, es)
(panic, es) >>= k = (panic, es)

unfoldable pub ◌>>◌ : {A B : Type 0} → Served A → Served B → Served B
m >> k = m >>= λ _. k

abbrev pub emit : Event → Served (Unit {0})
emit e = (ok tt, List.◌∷◌ e List.[])

abbrev pub check : {A : Type 0} → String → Result A → Served A
check msg r = (wrapped msg r, List.[])

abbrev pub create_at : Event → String → Result (Unit {0}) → Served (Unit {0})
create_at event msg (ok _) = emit event
create_at event msg (err e) = (err (Error.wrap msg e), List.[])
create_at event msg panic = (panic, List.[])

module _ (host : Host) (checker : Checker) where
  unfoldable pub task_name : String → String
  unfolding base replace_char
  task_name task = base (replace_char b'_' "-" task)

  unfoldable pub executable_path : String → String
  unfolding task_name
  executable_path task =
      host.join checker.binaries_directory (append "ctf_" (replace_char b'-' "_" (task_name task)))

  unfoldable pub input_path : String → String
  unfolding task_name
  input_path task =
      host.join checker.submits_directory (append (task_name task) (append "_" host.stamp))

  abbrev pub known_task : Bool → String → Served (Unit {0})
  known_task true task = (ok tt, List.[])
  known_task false task = (err (new (append "unknown task " task)), List.[])

  unfoldable pub give_flag : String → Result String → Served (Unit {0})
  unfolding error_text
  give_flag task (ok flag) = emit (fetched task) >> emit (wrote (append flag "\n"))
  give_flag task (err e) =
      emit (fetched task) >> (err (new (append "failed to fetch flag: " (error_text e))), List.[])
  give_flag task panic = emit (fetched task) >> (panic, List.[])

  -- What follows `proxy.run()`.
  unfoldable pub after_run : String → Exit → Served (Unit {0})
  unfolding give_flag fetch_flag
  after_run task finished = emit (wrote "Command finished normally\n")
  after_run task (exited true state) = (err (new "got EOF before command exit"), List.[])
  after_run task (exited false state) = do
    let text = append "Command failed: " (append state "\nTrying to fetch flag...\n")
    _ ← create_at (wrote text) "failed to write to the connection" (host.write text)
    give_flag task (fetch_flag host.post host.unmarshal checker.flag_fetcher task 0 host.more_tries)
  -- The text of this error ends with the command's standard error, which is left out.
  after_run task (broken e) = (err (Error.wrap "failed to start command" e), List.[])

  -- From the name of the task on.
  unfoldable pub run_task : String → List Reading → Served (Unit {0})
  unfolding executable_path input_path after_run is_regular_file
  run_task task input = do
    _ ← known_task (is_regular_file (host.stat (executable_path task))) task
    let submit = input_path task
    _ ← create_at (created submit) "failed to create input file" (host.create submit)
    let errors = append submit ".err"
    _ ← create_at (created errors) "failed to create stderr file" (host.create errors)
    _ ← check "failed to prepare command" (host.prepare (executable_path task))
    _ ← emit (wrote (append "Running task " (append task "\n")))
    _ ← emit (ran (executable_path task))
    after_run task (host.run (executable_path task) input)

  abbrev pub read_task : Result String × List Reading → Served (String × List Reading)
  read_task (ok task, rest) = (ok (task, rest), List.[])
  read_task (err e, rest) = (err (Error.wrap "failed to read first line" e), List.[])
  read_task (panic, rest) = (panic, List.[])

  unfoldable pub serve : List Reading → Served (Unit {0})
  unfolding run_task slow_read_first_line
  serve readings = do
    _ ← emit (wrote "Enter task name: ")
    (task, rest) ← read_task (slow_read_first_line host.trim readings)
    run_task task rest

  -- `free` is what TryAcquire sees, `waited` what Acquire answers before the timeout of a minute.
  unfoldable pub acquire : ℕ → Result (Unit {0}) → Served (Unit {0})
  acquire free waited =
      if ltb 0 free
      then emit acquired
      else emit (wrote "Waiting for an available runner...\n")
        >> create_at acquired "failed to acquire semaphore" waited

  -- `defer c.sema.Release(1)`
  abbrev pub releasing : {A : Type 0} → Served A → Served A
  releasing (r, es) = (r, es ++ List.◌∷◌ released List.[])

  unfoldable pub do_handle_connection : ℕ → Result (Unit {0}) → List Reading → Served (Unit {0})
  unfolding acquire serve
  do_handle_connection free waited readings = do _ ← acquire free waited; releasing (serve readings)

  -- What handleConnection tells the client of an error.
  abbrev pub error_line : Result (Unit {0}) → List Event
  error_line (err e) = List.◌∷◌ (wrote (append "Error: " (append (error_text e) "\n"))) List.[]
  error_line _ = List.[]

  unfoldable pub handle_connection : ℕ → Result (Unit {0}) → List Reading → List Event
  unfolding do_handle_connection
  handle_connection free waited readings =
      let (r, es) = do_handle_connection free waited readings in
      es ++ (error_line r ++ List.◌∷◌ closed List.[])
