-- ===== src/Crashme/Accept/Errors.antt =====
-- What becomes of the errors of Accept in main of cmd/crashme/main.go.
use notmanytask.Base.{
  ℕ, suc, ◌+◌, ◌≤◌, ◌<◌, ◌≡◌, ◌≢◌, ◌⊎◌, refl, ap, inl, true, false, Option, none, some, List, [],
  ◌∷◌, ◌++◌, arith,
}
use notmanytask.Base.Errors.{Result, ok, panic}
use notmanytask.Crashme.Line.{Reading}
use notmanytask.Crashme.Connection.{Host, Checker}
use notmanytask.Crashme.Accept.{
  Accepted, connection, refused, conn_of, Accepting, start_accepting, next_budget, is_exhausted,
  accept_errors_budget, handle_conn, AcceptStep, AcceptSteps, accept, give_up, handle,
  handle_panics, begin, next,
}

abbrev pub error_count : List Accepted → ℕ
error_count [] = 0
error_count (connection readings ∷ l) = error_count l
error_count (refused e ∷ l) = suc (error_count l)

abbrev pub connection_count : List Accepted → ℕ
connection_count [] = 0
connection_count (connection readings ∷ l) = suc (connection_count l)
connection_count (refused e ∷ l) = connection_count l

-- The connections since the last error, with `n` before the list.
abbrev pub in_a_row : ℕ → List Accepted → ℕ
in_a_row n [] = n
in_a_row n (connection readings ∷ l) = in_a_row (suc n) l
in_a_row n (refused e ∷ l) = in_a_row 0 l

-- The goroutines whose conn is nil.
abbrev pub nil_count : List (ℕ × Option (List Reading)) → ℕ
nil_count [] = 0
nil_count ((id, none) ∷ gs) = suc (nil_count gs)
nil_count ((id, some readings) ∷ gs) = nil_count gs

error_count-append : (l m : List Accepted) → error_count (l ++ m) ≡ error_count l + error_count m
error_count-append [] m = omega arith
error_count-append (connection readings ∷ l) m = error_count-append l m
error_count-append (refused e ∷ l) m = omega (arith, error_count-append l m)

connection_count-append :
    (l m : List Accepted) → connection_count (l ++ m) ≡ connection_count l + connection_count m
connection_count-append [] m = omega arith
connection_count-append (connection readings ∷ l) m = omega (arith, connection_count-append l m)
connection_count-append (refused e ∷ l) m = connection_count-append l m

in_a_row-append : (n : ℕ) (l m : List Accepted) → in_a_row n (l ++ m) ≡ in_a_row (in_a_row n l) m
in_a_row-append n [] m = refl
in_a_row-append n (connection readings ∷ l) m = in_a_row-append (suc n) l m
in_a_row-append n (refused e ∷ l) m = in_a_row-append 0 l m

nil_count-append :
    (gs hs : List (ℕ × Option (List Reading))) → nil_count (gs ++ hs) ≡ nil_count gs + nil_count hs
nil_count-append [] hs = omega arith
nil_count-append ((id, none) ∷ gs) hs = omega (arith, nil_count-append gs hs)
nil_count-append ((id, some readings) ∷ gs) hs = nil_count-append gs hs

abbrev WithNil : List (ℕ × Option (List Reading)) → Type 0
WithNil gs =
    (before after : List (ℕ × Option (List Reading))) × (id : ℕ) × (gs
      ≡ before ++ ((id, none) ∷ after))

positive-WithNil : (gs : List (ℕ × Option (List Reading))) → 0 < nil_count gs → WithNil gs
positive-WithNil [] h = absurd (omega arith)
positive-WithNil ((id, none) ∷ gs) h = ([], gs, id, refl)
positive-WithNil ((id, some readings) ∷ gs) h =
    let (before, after, id', e) = positive-WithNil gs h in
    ((id, some readings) ∷ before, after, id', ap (λ l. (id, some readings) ∷ l) e)

-- As long as the process has not panicked.
record IsBudgeted (answers : List Accepted) (s : Accepting) : Type 0 where
  at_most : s.budget ≤ accept_errors_budget
  spent : accept_errors_budget ≤ s.budget + error_count answers
  left : s.budget + error_count answers ≤ accept_errors_budget + connection_count answers
  recovered : (in_a_row 0 answers ≤ s.budget) ⊎ (accept_errors_budget ≤ s.budget)
  waiting : nil_count s.goroutines ≡ error_count answers

module _ (host : Host) (checker : Checker) where
  some_conn :
      (free : ℕ) (waited : Result (Unit {0})) (conn : Option (List Reading)) (id : ℕ)
      → handle_conn host checker free waited conn ≢ panic
      → nil_count ((id, conn) ∷ []) ≡ 0
  unfolding handle_conn
  some_conn free waited none id calm = absurd (calm refl)
  some_conn free waited (some readings) id calm = refl

  accept-IsBudgeted :
      (answers : List Accepted) (s : Accepting) (a : Accepted)
      → IsBudgeted answers s
      → is_exhausted a s.budget ≡ false
      → IsBudgeted (answers ++ (a ∷ [])) (record s {
        budget = next_budget a s.budget;
        next_id = suc s.next_id;
        goroutines = s.goroutines ++ ((s.next_id, conn_of a) ∷ []);
      })
  unfolding next_budget is_exhausted
  accept-IsBudgeted answers s (connection readings) h x =
      let n = error_count-append answers (connection readings ∷ []) in
      let m = connection_count-append answers (connection readings ∷ []) in
      let i = in_a_row-append 0 answers (connection readings ∷ []) in
      let k = nil_count-append s.goroutines ((s.next_id, some readings) ∷ []) in
      let low = h.at_most in
      let spent = h.spent in
      let left = h.left in
      let recovered = h.recovered in
      let waiting = h.waiting in
      record {
        at_most = ground arith;
        spent = ground arith;
        left = ground arith;
        recovered = ground arith;
        waiting = omega arith;
      }
  accept-IsBudgeted answers s (refused e) h x =
      let n = error_count-append answers (refused e ∷ []) in
      let m = connection_count-append answers (refused e ∷ []) in
      let i = in_a_row-append 0 answers (refused e ∷ []) in
      let k = nil_count-append s.goroutines ((s.next_id, none) ∷ []) in
      let low = h.at_most in
      let spent = h.spent in
      let left = h.left in
      let recovered = h.recovered in
      let waiting = h.waiting in
      record {
        at_most = ground arith;
        spent = ground arith;
        left = ground arith;
        recovered = ground arith;
        waiting = omega arith;
      }

  handle-IsBudgeted :
      (answers : List Accepted) (s : Accepting) (before after : List (ℕ × Option (List Reading)))
      (id : ℕ) (conn : Option (List Reading))
      → IsBudgeted answers s
      → s.goroutines ≡ before ++ ((id, conn) ∷ after)
      → nil_count ((id, conn) ∷ []) ≡ 0
      → IsBudgeted (answers ++ []) (record s { goroutines = before ++ after })
  handle-IsBudgeted answers s before after id conn h e z =
      let n = error_count-append answers [] in
      let m = connection_count-append answers [] in
      let i = in_a_row-append 0 answers [] in
      let low = h.at_most in
      let spent = h.spent in
      let left = h.left in
      let recovered = h.recovered in
      let waiting = h.waiting in
      let a = ap nil_count e in
      let b = nil_count-append before ((id, conn) ∷ after) in
      let c = nil_count-append ((id, conn) ∷ []) after in
      let d = nil_count-append before after in
      record {
        at_most = omega arith;
        spent = omega arith;
        left = omega arith;
        recovered = ground arith;
        waiting = omega arith;
      }

  AcceptSteps-IsBudgeted :
      {answers : List Accepted} {s : Accepting}
      → AcceptSteps host checker answers s
      → s.panicked ≡ false
      → IsBudgeted answers s
  unfolding start_accepting
  AcceptSteps-IsBudgeted begin calm = record {
    at_most = omega arith;
    spent = omega arith;
    left = omega arith;
    recovered = inl (omega arith);
    waiting = refl;
  }
  AcceptSteps-IsBudgeted (next {l} {m} {s} {t} sts (accept a p x)) calm =
      accept-IsBudgeted l s a (AcceptSteps-IsBudgeted sts p) x
  AcceptSteps-IsBudgeted (next {l} {m} {s} {t} sts (give_up a p x)) calm = absurd (cc)
  AcceptSteps-IsBudgeted
        (next {l} {m} {s} {t} sts (handle before after id conn free waited events p e x)) calm =
      handle-IsBudgeted l s before after id conn (AcceptSteps-IsBudgeted sts p) e
        (some_conn free waited conn id (λ q. absurd (cc)))
  AcceptSteps-IsBudgeted
        (next {l} {m} {s} {t} sts (handle_panics before after id conn free waited p e x)) calm =
      absurd (cc)

  -- As long as the process has not panicked, the budget is 10 at most; it has lost one for every error
  -- of Accept, up to as many as there were connections, and no more than that; it is full again or at
  -- least the number of the connections since the last error; and there are as many
  -- goroutines with a nil connection as there were errors: none of them has ended. If there was an
  -- error at all, such a goroutine can run at once, and its panic ends the process.
  pub accept_errors :
      (answers : List Accepted) (s : Accepting)
      → AcceptSteps host checker answers s
      → s.panicked ≡ false
      → (s.budget ≤ accept_errors_budget)
        × (accept_errors_budget ≤ s.budget + error_count answers)
        × (s.budget + error_count answers ≤ accept_errors_budget + connection_count answers)
        × ((in_a_row 0 answers ≤ s.budget) ⊎ (accept_errors_budget ≤ s.budget))
        × (nil_count s.goroutines ≡ error_count answers)
        × (0 < error_count answers → AcceptStep host checker s [] (record s { panicked = true }))
  unfolding handle_conn
  accept_errors answers s sts calm =
      let h = AcceptSteps-IsBudgeted sts calm in
      let n = h.waiting in
      (
        h.at_most,
        h.spent,
        h.left,
        h.recovered,
        n,
        λ some_error.
            let (before, after, id, e) = positive-WithNil s.goroutines (omega arith) in
            handle_panics before after id none 0 (ok tt) calm e refl,
      )
