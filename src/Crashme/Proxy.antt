-- ===== src/Crashme/Proxy.antt =====
-- commandProxy of cmd/crashme/main.go: the goroutines between a connection and its process.
pub mod Output
pub mod Ends
use notmanytask.Base.{ℕ, Bool, true, false, ◌≡◌, ◌≢◌, Option, none, some, List, [], ◌++◌, ◌-◌}
use notmanytask.Base.Errors.{Result, ok, err, panic, Error, ◌>>=◌, wrapped}
use notmanytask.Crashme.Connection.{Exit}

-- One of the two pipes that the process writes into, with the goroutine that empties it: what the
-- process has written, what of it is still in the pipe, and what has reached the destination.
-- `broken` says that writing to the destination fails from now on, `closed` is the end that the
-- goroutine reads, `done` is set when it has called wg.Done.
pub record Copier : Type 0 where
  pub written : List ℕ
  pub pipe : List ℕ
  pub copied : List ℕ
  pub broken : Bool
  pub closed : Bool
  pub done : Bool

-- Where run is: in cmd.Wait, in wg.Wait, and behind.
pub data Phase : Type 0 where
  waits_exit : Phase
  waits_group : Phase
  returned : Phase

-- `exit` is what the process has ended with, `fed` what it was given on its standard input, `input_open`
-- that the pipe for it has not been closed, `group` the counter of the WaitGroup.
pub record Proxy : Type 0 where
  pub phase : Phase
  pub exit : Option Exit
  pub stdout : Copier
  pub stderr : Copier
  pub fed : List ℕ
  pub input_open : Bool
  pub group : ℕ

abbrev pub fresh_copier : Copier
fresh_copier = record {
  written = [];
  pipe = [];
  copied = [];
  broken = false;
  closed = false;
  done = false;
}

abbrev pub fresh_proxy : Proxy
fresh_proxy = record {
  phase = waits_exit;
  exit = none;
  stdout = fresh_copier;
  stderr = fresh_copier;
  fed = [];
  input_open = true;
  group = 2;
}

-- newCommandProxy, with what the three pipes come to.
unfoldable pub new_command_proxy :
    Result (Unit {0}) → Result (Unit {0}) → Result (Unit {0}) → Result Proxy
new_command_proxy out errs input = do
  _ ← wrapped "failed to create command stdout" out
  _ ← wrapped "failed to create command stderr" errs
  _ ← wrapped "failed to create command stdin" input
  ok fresh_proxy

-- The beginning of run: no goroutine is started for a command that cannot be.
unfoldable pub start : Result (Unit {0}) → Proxy → Result Proxy
start started p = do _ ← wrapped "failed to start command" started; ok p

abbrev pub copied_of : Copier → List ℕ → List ℕ → Copier
copied_of c chunk rest = record c { pipe = rest; copied = c.copied ++ chunk }

-- copyAndDone after io.Copy: the pipe is closed, and wg.Done is called.
abbrev pub finish : Copier → Copier
finish c = record c { closed = true; done = true }

-- What ends io.Copy: the end of what an ended process has written, a pipe that is closed under it, or
-- something to write that the destination does not take.
pub data Ended (exit : Option Exit) (c : Copier) : Type 0 where
  end_of_file : (e : Exit) → exit ≡ some e → c.pipe ≡ [] → Ended exit c
  pipe_closed : c.closed ≡ true → Ended exit c
  write_failed : c.broken ≡ true → c.pipe ≢ [] → Ended exit c

abbrev pub written_to : Copier → List ℕ → Copier
written_to c text = record c { written = c.written ++ text; pipe = c.pipe ++ text }

abbrev pub break : Copier → Copier
break c = record c { broken = true }

abbrev pub close : Copier → Copier
close c = record c { closed = true }

-- cmd.Wait closes the pipes of the command when the process has ended.
abbrev pub close_pipes : Proxy → Proxy
close_pipes p = record p {
  stdout = close p.stdout;
  stderr = close p.stderr;
  input_open = false;
  phase = waits_group;
}

-- The process, the connection and the file, the three goroutines and run itself, in any order.
pub data ProxyStep (p : Proxy) : Proxy → Type 0 where
  write_stdout :
      (text : List ℕ) → p.exit ≡ none → ProxyStep p (record p { stdout = written_to p.stdout text })
  write_stderr :
      (text : List ℕ) → p.exit ≡ none → ProxyStep p (record p { stderr = written_to p.stderr text })
  end_process : (e : Exit) → p.exit ≡ none → ProxyStep p (record p { exit = some e })
  feed_stdin :
      (text : List ℕ) → p.input_open ≡ true → ProxyStep p (record p { fed = p.fed ++ text })
  close_stdin : ProxyStep p (record p { input_open = false })
  break_stdout : ProxyStep p (record p { stdout = break p.stdout })
  break_stderr : ProxyStep p (record p { stderr = break p.stderr })
  copy_stdout :
      (chunk rest : List ℕ)
      → p.stdout.done ≡ false
      → p.stdout.closed ≡ false
      → p.stdout.broken ≡ false
      → p.stdout.pipe ≡ chunk ++ rest
      → ProxyStep p (record p { stdout = copied_of p.stdout chunk rest })
  copy_stderr :
      (chunk rest : List ℕ)
      → p.stderr.done ≡ false
      → p.stderr.closed ≡ false
      → p.stderr.broken ≡ false
      → p.stderr.pipe ≡ chunk ++ rest
      → ProxyStep p (record p { stderr = copied_of p.stderr chunk rest })
  finish_stdout :
      p.stdout.done ≡ false
      → Ended p.exit p.stdout
      → ProxyStep p (record p { stdout = finish p.stdout; group = p.group - 1 })
  finish_stderr :
      p.stderr.done ≡ false
      → Ended p.exit p.stderr
      → ProxyStep p (record p { stderr = finish p.stderr; group = p.group - 1 })
  command_waited : (e : Exit) → p.phase ≡ waits_exit → p.exit ≡ some e → ProxyStep p (close_pipes p)
  group_waited : p.phase ≡ waits_group → p.group ≡ 0 → ProxyStep p (record p { phase = returned })

pub data ProxySteps (p : Proxy) : Proxy → Type 0 where
  stay : ProxySteps p p
  next : {q r : Proxy} → ProxySteps p q → ProxyStep q r → ProxySteps p r

-- The steps of run itself and of the two goroutines that it waits for: neither of the process, nor of
-- the connection, nor of the goroutine between them.
abbrev pub IsOwn : {p q : Proxy} → ProxyStep p q → Type 0
IsOwn (write_stdout text x) = ⊥
IsOwn (write_stderr text x) = ⊥
IsOwn (end_process e x) = ⊥
IsOwn (feed_stdin text x) = ⊥
IsOwn close_stdin = ⊥
IsOwn break_stdout = ⊥
IsOwn break_stderr = ⊥
IsOwn (copy_stdout chunk rest d c b e) = Unit {0}
IsOwn (copy_stderr chunk rest d c b e) = Unit {0}
IsOwn (finish_stdout d x) = Unit {0}
IsOwn (finish_stderr d x) = Unit {0}
IsOwn (command_waited e w x) = Unit {0}
IsOwn (group_waited w z) = Unit {0}

pub data OwnSteps (p : Proxy) : Proxy → Type 0 where
  idle : OwnSteps p p
  further : {q r : Proxy} → OwnSteps p q → (st : ProxyStep q r) → IsOwn st → OwnSteps p r
