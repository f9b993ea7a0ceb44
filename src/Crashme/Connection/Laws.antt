-- ===== src/Crashme/Connection/Laws.antt =====
-- A flag is fetched only for a command that crashed, and every permit that is taken is given back.
use notmanytask.Base.{
  ℕ, ◌≡◌, ◌≢◌, refl, sym, ap, ◌∙◌, ◌⊎◌, inl, inr, String, Bool, true, false, List, [], ◌∷◌, ◌++◌,
  ltb, In, In-append, subst, Bool-cases,
}
use notmanytask.Base.Errors.{Result, ok, err, panic}
use notmanytask.Crashme.Line.{Reading, slow_read_first_line}
use notmanytask.Crashme.Connection.{
  is_regular_file, Checker, Host, Exit, finished, exited, broken, Event, acquired, released, wrote,
  created, ran, fetched, closed, Served, events_of, ◌>>=◌, ◌>>◌, emit, check, create_at,
  executable_path, input_path, known_task, give_flag, after_run, run_task, read_task, serve,
  acquire, do_handle_connection, handle_connection, error_line,
}

In-bind :
    {A B : Type 0} (ev : Event) (m : Served A) (k : A → Served B)
    → In ev (events_of (m >>= k))
    → In ev (events_of m) ⊎ ((a : A) × (m.0 ≡ ok a) × In ev (events_of (k a)))
unfolding ◌>>=◌
In-bind ev (ok a, es) k i = elim (In-append ev es (k a).1 i) [
  | inl j ↦ inl j
  | inr j ↦ inr (a, refl, j)
]
In-bind ev (err e, es) k i = inl i
In-bind ev (panic, es) k i = inl i

-- The event comes from what follows, if the first step does not have it.
In-bind_after :
    {A B : Type 0} (ev : Event) (m : Served A) (k : A → Served B)
    → ¬ In ev (events_of m)
    → In ev (events_of (m >>= k))
    → (a : A) × (m.0 ≡ ok a) × In ev (events_of (k a))
In-bind_after ev m k h i = elim (In-bind ev m k i) [ inl j ↦ absurd (h j) | inr found ↦ found ]

emit-In : (ev e : Event) → ev ≢ e → ¬ In ev (events_of (emit e))
emit-In ev e h (inl q) = h q
emit-In ev e h (inr j) = absurd j

create_at-In :
    (ev e : Event) (msg : String) (r : Result (Unit {0}))
    → ev ≢ e
    → ¬ In ev (events_of (create_at e msg r))
create_at-In ev e msg (ok _) h i = emit-In ev e h i
create_at-In ev e msg (err x) h i = absurd i
create_at-In ev e msg panic h i = absurd i

module _ (host : Host) (checker : Checker) where
  known_task-true :
      (b : Bool) (task : String) (u : Unit {0})
      → (known_task host checker b task).0 ≡ ok u
      → b ≡ true
  known_task-true true task u e = refl
  known_task-true false task u e = absurd (cc)

  known_task-In :
      (ev : Event) (b : Bool) (task : String) → ¬ In ev (events_of (known_task host checker b task))
  known_task-In ev true task i = absurd i
  known_task-In ev false task i = absurd i

  give_flag-In :
      (t task : String) (r : Result String)
      → In (fetched t) (events_of (give_flag host checker task r))
      → t ≡ task
  unfolding give_flag ◌>>◌ ◌>>=◌
  give_flag-In t task (ok flag) (inl q) = cc
  give_flag-In t task (ok flag) (inr (inl q)) = absurd (cc)
  give_flag-In t task (ok flag) (inr (inr j)) = absurd j
  give_flag-In t task (err e) (inl q) = cc
  give_flag-In t task (err e) (inr j) = absurd j
  give_flag-In t task panic (inl q) = cc
  give_flag-In t task panic (inr j) = absurd j

  after_run-fetched :
      (t task : String) (exit : Exit)
      → In (fetched t) (events_of (after_run host checker task exit))
      → (t ≡ task) × ((state : String) × (exit ≡ exited false state))
  unfolding after_run
  after_run-fetched t task finished i = absurd (emit-In (fetched t) (wrote _) (λ q. cc) i)
  after_run-fetched t task (exited true state) i = absurd i
  after_run-fetched t task (exited false state) i =
      let (_, _, j) =
        In-bind_after (fetched t) (create_at (wrote _) _ (host.write _)) _
          (create_at-In (fetched t) (wrote _) _ (host.write _) (λ q. cc)) i in
      (give_flag-In t task _ j, (state, refl))
  after_run-fetched t task (broken e) i = absurd i

  -- The command of the task crashed on the input.
  abbrev pub Crashed : String → List Reading → Type 0
  Crashed task input =
      (is_regular_file (host.stat (executable_path host checker task)) ≡ true)
      × ((state : String) × (host.run (executable_path host checker task) input
            ≡ exited false state))

  run_task-fetched :
      (t task : String) (input : List Reading)
      → In (fetched t) (events_of (run_task host checker task input))
      → (t ≡ task) × Crashed task input
  unfolding run_task
  run_task-fetched t task input i0 =
      let known = is_regular_file (host.stat (executable_path host checker task)) in
      let submit = input_path host checker task in
      let (u, is_known, i1) =
        In-bind_after (fetched t) (known_task host checker known task) _
          (known_task-In (fetched t) known task) i0 in
      let (_, _, i2) =
        In-bind_after (fetched t) (create_at (created submit) _ (host.create submit)) _
          (create_at-In (fetched t) (created submit) _ (host.create submit) (λ q. cc)) i1 in
      let (_, _, i3) =
        In-bind_after (fetched t) (create_at (created _) _ (host.create _)) _
          (create_at-In (fetched t) (created _) _ (host.create _) (λ q. cc)) i2 in
      let (_, _, i4) =
        In-bind_after (fetched t) (check _ (host.prepare (executable_path host checker task))) _
          (λ i. i) i3 in
      let (_, _, i5) =
        In-bind_after (fetched t) (emit (wrote _)) _ (emit-In (fetched t) (wrote _) (λ q. cc)) i4 in
      let (_, _, i6) =
        In-bind_after (fetched t) (emit (ran _)) _ (emit-In (fetched t) (ran _) (λ q. cc)) i5 in
      let (same, crash) =
        after_run-fetched t task (host.run (executable_path host checker task) input) i6 in
      (same, (known_task-true known task u is_known, crash))

  read_task-ok :
      (r : Result String × List Reading) (task : String) (rest : List Reading)
      → (read_task host checker r).0 ≡ ok (task, rest)
      → r ≡ (ok task, rest)
  read_task-ok (ok t, rs) task rest e = cc
  read_task-ok (err x, rs) task rest e = absurd (cc)
  read_task-ok (panic, rs) task rest e = absurd (cc)

  read_task-In :
      (ev : Event) (r : Result String × List Reading)
      → ¬ In ev (events_of (read_task host checker r))
  read_task-In ev (ok t, rs) i = i
  read_task-In ev (err x, rs) i = i
  read_task-In ev (panic, rs) i = i

  serve-fetched :
      (t : String) (readings : List Reading)
      → In (fetched t) (events_of (serve host checker readings))
      → (rest : List Reading) × (slow_read_first_line host.trim readings ≡ (ok t, rest))
        × Crashed t rest
  unfolding serve
  serve-fetched t readings i0 =
      let (_, _, i1) =
        In-bind_after (fetched t) (emit (wrote _)) _ (emit-In (fetched t) (wrote _) (λ q. cc)) i0 in
      let line = slow_read_first_line host.trim readings in
      let ((task, rest), read, i2) =
        In-bind_after (fetched t) (read_task host checker line) _ (read_task-In (fetched t) line)
          i1 in
      let (same, crash) = run_task-fetched t task rest i2 in
      (
        rest,
        read_task-ok line task rest read ∙ ap (λ x. (ok x, rest)) (sym same),
        subst (λ x. Crashed x rest) (sym same) crash,
      )

  acquire-In :
      (t : String) (free : ℕ) (waited : Result (Unit {0}))
      → ¬ In (fetched t) (events_of (acquire host checker free waited))
  unfolding acquire ◌>>◌
  acquire-In t free waited i0 = elim (Bool-cases (ltb 0 free)) [
    | inl q ↦ emit-In (fetched t) acquired (λ p. cc) (rw q at i0)
    | inr q ↦
        let (_, _, i1) =
          In-bind_after (fetched t) (emit (wrote _))
            (λ _. create_at acquired "failed to acquire semaphore" waited)
            (emit-In (fetched t) (wrote _) (λ p. cc)) (rw q at i0) in
        create_at-In (fetched t) acquired "failed to acquire semaphore" waited (λ p. cc) i1
  ]

  do_handle_connection-fetched :
      (t : String) (free : ℕ) (waited : Result (Unit {0})) (readings : List Reading)
      → In (fetched t) (events_of (do_handle_connection host checker free waited readings))
      → In (fetched t) (events_of (serve host checker readings))
  unfolding do_handle_connection
  do_handle_connection-fetched t free waited readings i0 =
      let (_, _, i1) =
        In-bind_after (fetched t) (acquire host checker free waited) _ (acquire-In t free waited)
          i0 in
      elim (In-append (fetched t) (serve host checker readings).1 (released ∷ []) i1) [
        | inl j ↦ j
        | inr j ↦ absurd (emit-In (fetched t) released (λ q. cc) j)
      ]

  last_events-In :
      (t : String) (r : Result (Unit {0}))
      → ¬ In (fetched t) (error_line host checker r ++ (closed ∷ []))
  last_events-In t (ok u) (inl q) = cc
  last_events-In t (ok u) (inr j) = j
  last_events-In t (err e) (inl q) = cc
  last_events-In t (err e) (inr (inl q)) = cc
  last_events-In t (err e) (inr (inr j)) = j
  last_events-In t panic (inl q) = cc
  last_events-In t panic (inr j) = j

  -- If the service asks for the flag of a task while it handles a connection, then the first line
  -- that the connection sent is the name of this task, the task's program is a regular file, and it
  -- ended with a failure other than an interrupt on the input behind this line.
  pub handle_connection-fetched :
      (t : String) (free : ℕ) (waited : Result (Unit {0})) (readings : List Reading)
      → In (fetched t) (handle_connection host checker free waited readings)
      → (rest : List Reading) × (slow_read_first_line host.trim readings ≡ (ok t, rest))
        × Crashed t rest
  unfolding handle_connection
  handle_connection-fetched t free waited readings i =
      let (r, es) = do_handle_connection host checker free waited readings in
      elim (In-append (fetched t) es _ i) [
        | inl j ↦ serve-fetched t readings (do_handle_connection-fetched t free waited readings j)
        | inr j ↦ absurd (last_events-In t r j)
      ]
