-- ===== src/Fuzz/Shell.antt =====
-- Run and fetch of cmd/fuzz/main.go: a command of the shell with its options.
use Prim.Native.String.{◌++◌ as append}
use notmanytask.Base.{
  String, ◌≡◌, refl, sym, ap, ◌∙◌, ◌==◌, string_eq, if◌then◌else◌, Bool, true, false, List, [], ◌∷◌,
  ◌++◌,
}
use notmanytask.Base.Errors.{Result, ok, err, panic, ◌>>=◌, bind-ok, ok_inj}
use notmanytask.Fuzz.{Machine}

-- The writers of a command: the two buffers of Run, and files.
pub data Writer : Type 0 where
  stderr_buffer : Writer
  stdout_buffer : Writer
  to_file : String → Writer

-- exec.Cmd: both outputs go to any number of writers, a list without one is nil.
pub record Cmd : Type 0 where
  pub line : String
  pub dir : String
  pub stdout : List Writer
  pub stderr : List Writer

-- runOption: the options, whose directories and files are made when they are built.
pub data RunOption : Type 0 where
  with_dir : String → RunOption
  with_stderr : String → RunOption
  with_stdout : String → RunOption

-- An argument of Run is an option or a value for the format.
pub data Argument : Type 0 where
  option : RunOption → Argument
  value : String → Argument

unfoldable pub options_of : List Argument → List RunOption
options_of [] = []
options_of (option o ∷ rest) = o ∷ options_of rest
options_of (value v ∷ rest) = options_of rest

unfoldable pub values_of : List Argument → List String
values_of [] = []
values_of (option o ∷ rest) = values_of rest
values_of (value v ∷ rest) = v ∷ values_of rest

unfoldable pub apply_option : RunOption → Cmd → Cmd
apply_option (with_dir dir) cmd = record cmd { dir = dir }
apply_option (with_stderr file) cmd = record cmd { stderr = to_file file ∷ [] }
apply_option (with_stdout file) cmd = record cmd { stdout = to_file file ∷ [] }

unfoldable pub apply_options : List RunOption → Cmd → Cmd
unfolding apply_option
apply_options [] cmd = cmd
apply_options (o ∷ os) cmd = apply_options os (apply_option o cmd)

-- `cmd.Stdout = &stderr`: both branches of both outputs add the buffer of the standard error.
unfoldable pub add_buffers : Cmd → Cmd
add_buffers cmd = record cmd {
  stdout = cmd.stdout ++ (stderr_buffer ∷ []);
  stderr = cmd.stderr ++ (stderr_buffer ∷ []);
}

-- What was written to a buffer: by the standard output, then by the standard error, if it has them.
abbrev pub holds_buffer : List Writer → Bool
holds_buffer [] = false
holds_buffer (stdout_buffer ∷ ws) = true
holds_buffer (stderr_buffer ∷ ws) = holds_buffer ws
holds_buffer (to_file file ∷ ws) = holds_buffer ws

abbrev pub only_if : Bool → String → String
only_if true text = text
only_if false text = ""

-- The machine: how a command ends, and what it has written to its two outputs.
pub record Shell : Type 0 where
  pub exec : Cmd → Result (Unit {0})
  pub out : Cmd → String
  pub errs : Cmd → String
  pub sprintf : String → List String → String

module _ (shell : Shell) where
  -- The text of the buffer `stdout`.
  unfoldable pub stdout_text : Cmd → String
  stdout_text cmd =
      append (only_if (holds_buffer cmd.stdout) (shell.out cmd))
        (only_if (holds_buffer cmd.stderr) (shell.errs cmd))

  unfoldable pub new_cmd : String → List RunOption → Cmd
  unfolding apply_options add_buffers
  new_cmd line options =
      add_buffers
        (apply_options options (record { line = line; dir = ""; stdout = []; stderr = [] }))

  -- Run from its line on.
  unfoldable pub run_line : String → List RunOption → Result String
  unfolding new_cmd stdout_text
  run_line line options = do
    _ ← shell.exec (new_cmd line options)
    ok (stdout_text (new_cmd line options))

  unfoldable pub run : String → List Argument → Result String
  unfolding run_line options_of values_of
  run format args = run_line (shell.sprintf format (values_of args)) (options_of args)

  -- MustRun
  abbrev pub unwrap : Result String → Result String
  unwrap (ok text) = ok text
  unwrap (err e) = panic
  unwrap panic = panic

  unfoldable pub must_run : String → List Argument → Result String
  unfolding run
  must_run format args = unwrap (run format args)

  -- fetch. What stands at the destination is removed before, whether or not that succeeds.
  unfoldable pub fetch : String → String → String → Result (Unit {0})
  unfolding run
  fetch url branch output = do
    _ ← run "git clone %s --branch=%s %s" (value url ∷ value branch ∷ value output ∷ [])
    ok tt

  abbrev pub dir_option : String → List RunOption
  dir_option dir = if dir == "" then [] else with_dir dir ∷ []

  abbrev pub without_text : Result String → Result (Unit {0})
  without_text r = (r >>= λ _. ok tt)

  -- What the fetching and the building of solutions use of it, with their lines already formatted.
  unfoldable pub machine_of : (String → Result Bool) → Machine
  unfolding fetch run_line
  machine_of exists = record {
    exists = exists;
    clone = fetch;
    shell = λ line dir. without_text (run_line line (dir_option dir));
  }

apply_option-no_buffer :
    (o : RunOption) (cmd : Cmd)
    → holds_buffer cmd.stdout ≡ false
    → holds_buffer cmd.stderr ≡ false
    → (holds_buffer (apply_option o cmd).stdout ≡ false)
      × (holds_buffer (apply_option o cmd).stderr ≡ false)
unfolding apply_option
apply_option-no_buffer (with_dir dir) cmd a b = (a, b)
apply_option-no_buffer (with_stderr file) cmd a b = (a, refl)
apply_option-no_buffer (with_stdout file) cmd a b = (refl, b)

apply_options-no_buffer :
    (os : List RunOption) (cmd : Cmd)
    → holds_buffer cmd.stdout ≡ false
    → holds_buffer cmd.stderr ≡ false
    → (holds_buffer (apply_options os cmd).stdout ≡ false)
      × (holds_buffer (apply_options os cmd).stderr ≡ false)
unfolding apply_options
apply_options-no_buffer [] cmd a b = (a, b)
apply_options-no_buffer (o ∷ os) cmd a b =
    let (a', b') = apply_option-no_buffer o cmd a b in
    apply_options-no_buffer os (apply_option o cmd) a' b'

holds_buffer-snoc :
    (ws : List Writer) → holds_buffer ws ≡ false → holds_buffer (ws ++ (stderr_buffer ∷ [])) ≡ false
holds_buffer-snoc [] e = refl
holds_buffer-snoc (stdout_buffer ∷ ws) e = absurd (cc)
holds_buffer-snoc (stderr_buffer ∷ ws) e = holds_buffer-snoc ws e
holds_buffer-snoc (to_file file ∷ ws) e = holds_buffer-snoc ws e

-- Whatever a command writes, and whichever options it has: if it succeeds, Run answers an empty text.
pub run-empty :
    (shell : Shell) (format : String) (args : List Argument) (text : String)
    → run shell format args ≡ ok text
    → text ≡ ""
unfolding run new_cmd add_buffers stdout_text
run-empty shell format args text e =
    let base : Cmd = record {
      line = shell.sprintf format (values_of args);
      dir = "";
      stdout = [];
      stderr = [];
    } in
    let cmd = new_cmd shell base.line (options_of args) in
    let (a, b) = apply_options-no_buffer (options_of args) base refl refl in
    let (_, _, e') = bind-ok (shell.exec cmd) _ text e in
    let a' = holds_buffer-snoc (apply_options (options_of args) base).stdout a in
    let b' = holds_buffer-snoc (apply_options (options_of args) base).stderr b in
    sym (ok_inj _ text e')
    ∙ ap
        (λ h.
          append (only_if h (shell.out cmd)) (only_if (holds_buffer cmd.stderr) (shell.errs cmd)))
        a'
    ∙ ap (λ h. append "" (only_if h (shell.errs cmd))) b'
