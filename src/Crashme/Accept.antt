-- ===== src/Crashme/Accept.antt =====
-- The loop of main in cmd/crashme/main.go, which accepts connections, with the goroutines that it
-- starts for them.
pub mod Errors
use notmanytask.Base.{
  ℕ, zero, suc, ◌+◌, ◌-◌, ◌≤◌, ◌<◌, ◌≡◌, refl, sym, ap, ◌∙◌, inl, inr, Bool, true, false,
  Bool-cases, Option, none, some, List, [], ◌∷◌, ◌++◌, eqb, ltb, arith, if◌then◌else◌,
}
use notmanytask.Base.Errors.{Error, Result, ok, err, panic, deref, ◌>>=◌}
use notmanytask.Crashme.Line.{Reading}
use notmanytask.Crashme.Connection.{Host, Checker, Event, do_handle_connection, handle_connection}

-- What listener.Accept answers: a connection, as what it will send, or an error.
pub data Accepted : Type 0 where
  connection : List Reading → Accepted
  refused : Error → Accepted

-- `conn`, which is nil beside an error.
abbrev pub conn_of : Accepted → Option (List Reading)
conn_of (connection readings) = some readings
conn_of (refused e) = none

abbrev pub accept_errors_budget : ℕ
accept_errors_budget = 10

-- The goroutines that have not ended, each with its connID and its conn.
pub record Accepting : Type 0 where
  pub budget : ℕ
  pub next_id : ℕ
  pub goroutines : List (ℕ × Option (List Reading))
  pub panicked : Bool

unfoldable pub start_accepting : Accepting
start_accepting = record {
  budget = accept_errors_budget;
  next_id = 0;
  goroutines = [];
  panicked = false;
}

unfoldable pub next_budget : Accepted → ℕ → ℕ
next_budget (connection readings) budget =
    if ltb budget accept_errors_budget then suc budget else budget
next_budget (refused e) budget = budget - 1

-- `panic(err)` where an error finds no budget.
unfoldable pub is_exhausted : Accepted → ℕ → Bool
is_exhausted (connection readings) budget = false
is_exhausted (refused e) budget = eqb budget 0

abbrev pub unless_panicked : Result (Unit {0}) → List Event → Result (List Event)
unless_panicked (ok _) events = ok events
unless_panicked (err e) events = ok events
unless_panicked panic events = panic

module _ (host : Host) (checker : Checker) where
  -- `checker.handleConnection(…, conn, connID)`: the first thing that it does is to ask conn for its
  -- address, and an interface that is nil has no methods.
  unfoldable pub handle_conn : ℕ → Result (Unit {0}) → Option (List Reading) → Result (List Event)
  unfolding do_handle_connection handle_connection
  handle_conn free waited conn = do
    readings ← deref conn
    unless_panicked (do_handle_connection host checker free waited readings).0
        (handle_connection host checker free waited readings)

  -- One round of the loop, or the run of a goroutine, with what Accept answered. A panic of either
  -- ends the process.
  pub data AcceptStep (s : Accepting) : List Accepted → Accepting → Type 0 where
    accept :
        (a : Accepted)
        → s.panicked ≡ false
        → is_exhausted a s.budget ≡ false
        → AcceptStep s (a ∷ []) (record s {
          budget = next_budget a s.budget;
          next_id = suc s.next_id;
          goroutines = s.goroutines ++ ((s.next_id, conn_of a) ∷ []);
        })
    give_up :
        (a : Accepted)
        → s.panicked ≡ false
        → is_exhausted a s.budget ≡ true
        → AcceptStep s (a ∷ []) (record s { panicked = true })
    handle :
        (before after : List (ℕ × Option (List Reading))) (id : ℕ) (conn : Option (List Reading))
        (free : ℕ) (waited : Result (Unit {0})) (events : List Event)
        → s.panicked ≡ false
        → s.goroutines ≡ before ++ ((id, conn) ∷ after)
        → handle_conn free waited conn ≡ ok events
        → AcceptStep s [] (record s { goroutines = before ++ after })
    handle_panics :
        (before after : List (ℕ × Option (List Reading))) (id : ℕ) (conn : Option (List Reading))
        (free : ℕ) (waited : Result (Unit {0}))
        → s.panicked ≡ false
        → s.goroutines ≡ before ++ ((id, conn) ∷ after)
        → handle_conn free waited conn ≡ panic
        → AcceptStep s [] (record s { panicked = true })

  -- From the start of the loop, with all that Accept has answered.
  pub data AcceptSteps : List Accepted → Accepting → Type 0 where
    begin : AcceptSteps [] start_accepting
    next :
        {l m : List Accepted} {s t : Accepting}
        → AcceptSteps l s
        → AcceptStep s m t
        → AcceptSteps (l ++ m) t
