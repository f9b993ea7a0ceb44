-- ===== src/Tests/Crashme.antt =====
-- Connections to crashme, at concrete inputs.
use Prim.Native.String.{◌++◌ as append}
use notmanytask.Base.{
  ℕ, String, arith, ◌+◌, ◌≤◌, ◌<◌, ◌≡◌, ◌⊎◌, ◌↔◌, refl, inl, inr, true, false, none, some, List, [],
  ◌∷◌, ◌++◌, In,
}
use notmanytask.Base.Errors.{ok, external}
use notmanytask.Crashme.Line.{
  Reading, byte, newline, max_first_line_size, slow_read_first_line, StartsWith,
  slow_read_first_line_iff,
}
use notmanytask.Crashme.Connection.{
  Checker, Host, regular, exited, fetched, handle_connection, base, replace_char, ◌>>=◌, ◌>>◌,
}
use notmanytask.Crashme.Connection.Laws.{Crashed, handle_connection-fetched}
use notmanytask.Crashme.Permits.{
  Pool, arrived, holding, left, PoolStep, PoolSteps, empty_pool, holders, pool-permits,
}
use notmanytask.Crashme.Accept.{
  Accepted, connection, refused, Accepting, accept_errors_budget, start_accepting, next_budget,
  is_exhausted, handle_conn, AcceptStep, AcceptSteps,
}
use notmanytask.Crashme.Accept.Errors.{
  error_count, connection_count, in_a_row, nil_count, accept_errors,
}

-- The text of a line, for the tests.
abbrev trim : List ℕ → String
trim line = "sum"

abbrev sent : List Reading
sent = byte 115 ∷ byte 10 ∷ byte 1 ∷ []

first_line_example : (slow_read_first_line trim sent ≡ (ok "sum", byte 1 ∷ [])) ↔ (
    (line : List ℕ) × StartsWith trim max_first_line_size line sent (byte 1 ∷ [])
    × ("sum" ≡ trim (line ++ (newline ∷ []))))
first_line_example = slow_read_first_line_iff trim sent (byte 1 ∷ []) "sum"

abbrev host : Host
host = record {
  join = λ dir name. append dir (append "/" name);
  stat = λ path. regular;
  create = λ path. ok tt;
  prepare = λ path. ok tt;
  run = λ path input. exited false "signal: segmentation fault";
  write = λ text. ok tt;
  post = λ k url request. ok "flag";
  unmarshal = λ body. ok (record { ok = true; error = ""; flag = "{FLAG-sum-1}" });
  more_tries = 0;
  trim = trim;
  stamp = "2021-01-01T00:00:00.000";
}

abbrev checker : Checker
checker = record {
  binaries_directory = "/build";
  submits_directory = "/submits";
  permits = 16;
  flag_fetcher = record { url = "https://service"; token = "secret" };
}

names :
    (base "tasks/my-sum/" ≡ "my-sum")
    × (base "///" ≡ "/")
    × (replace_char 95 "-" "my_sum" ≡ "my-sum")
unfolding base replace_char
names = (refl, refl, refl)

flag_is_fetched : In (fetched "sum") (handle_connection host checker 1 (ok tt) sent)
unfolding handle_connection ◌>>=◌ ◌>>◌
flag_is_fetched = inr (inr (inr (inr (inr (inr (inr (inl refl)))))))

fetched_example :
    (rest : List Reading) × (slow_read_first_line trim sent ≡ (ok "sum", rest))
    × Crashed host checker "sum" rest
fetched_example = handle_connection-fetched host checker "sum" 1 (ok tt) sent flag_is_fetched

-- One connection, which has been handled, and an error.
abbrev after_error : Accepting
after_error = record { budget = 9; next_id = 2; goroutines = (1, none) ∷ []; panicked = false }

abbrev one_error : List Accepted
one_error = connection sent ∷ refused (external "too many open files") ∷ []

connection_is_handled :
    handle_conn host checker 16 (ok tt) (some sent)
    ≡ ok (handle_connection host checker 16 (ok tt) sent)
unfolding handle_conn ◌>>=◌ ◌>>◌
connection_is_handled = refl

accepts : AcceptSteps host checker one_error after_error
unfolding start_accepting next_budget is_exhausted
accepts =
    AcceptSteps.next
      (AcceptSteps.next
        (AcceptSteps.next AcceptSteps.begin (AcceptStep.accept (connection sent) refl refl))
        (AcceptStep.handle [] [] 0 (some sent) 16 (ok tt) _ refl refl connection_is_handled))
      (AcceptStep.accept (refused (external "too many open files")) refl refl)

accept_example :
    (9 ≤ accept_errors_budget)
    × (accept_errors_budget ≤ 9 + error_count one_error)
    × (9 + error_count one_error ≤ accept_errors_budget + connection_count one_error)
    × ((in_a_row 0 one_error ≤ 9) ⊎ (accept_errors_budget ≤ 9))
    × (nil_count after_error.goroutines ≡ error_count one_error)
    × (0 < error_count one_error
        → AcceptStep host checker after_error [] (record after_error { panicked = true }))
accept_example = accept_errors host checker one_error after_error accepts refl

abbrev served : Pool
served = record { free = 16; stages = left ∷ [] }

serve_one : PoolSteps (empty_pool checker) served
serve_one =
    PoolSteps.further _ (record { free = 16; stages = arrived ∷ [] }) _ (PoolStep.accept _)
      (PoolSteps.further _ (record { free = 15; stages = holding ∷ [] }) _
        (PoolStep.try_acquire _ 0 refl (omega arith))
        (PoolSteps.further _ served _ (PoolStep.release _ 0 refl) (PoolSteps.finish _)))

permits_example :
    (holders served.stages ≤ checker.permits)
    × (holders served.stages ≡ 0 → served.free ≡ checker.permits)
permits_example = pool-permits checker served serve_one
