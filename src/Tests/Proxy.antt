-- ===== src/Tests/Proxy.antt =====
-- A command of crashme between its pipes, in concrete orders of events.
use notmanytask.Base.{ℕ, ◌≡◌, refl, true, false, some, List, [], ◌∷◌, ◌++◌}
use notmanytask.Base.Errors.{ok, ◌>>=◌}
use notmanytask.Crashme.Connection.{finished}
use notmanytask.Crashme.Proxy.{
  Proxy, ProxySteps, OwnSteps, waits_exit, returned, stay, next, fresh_proxy, fresh_copier,
  new_command_proxy, start, copied_of, written_to, finish, close, close_pipes, write_stdout,
  copy_stdout, end_process, command_waited, finish_stdout, finish_stderr, group_waited, pipe_closed,
}
use notmanytask.Crashme.Proxy.Output.{IsPast, run-returned}
use notmanytask.Crashme.Proxy.Ends.{output_may_be_lost}

started_proxy : (new_command_proxy (ok tt) (ok tt) (ok tt) >>= start (ok tt)) ≡ ok fresh_proxy
unfolding new_command_proxy start
started_proxy = refl

abbrev hi : List ℕ
hi = 104 ∷ 105 ∷ []

-- The process has written, what it wrote has been read, and it has ended.
abbrev ended : Proxy
ended = record fresh_proxy {
  stdout = copied_of (written_to fresh_copier hi) hi [];
  exit = some finished;
}

ended_steps : ProxySteps fresh_proxy ended
ended_steps =
    next (next (next stay (write_stdout hi refl)) (copy_stdout hi [] refl refl refl refl))
      (end_process finished refl)

abbrev over : Proxy
over = record (close_pipes ended) {
  stdout = finish (close ended.stdout);
  stderr = finish (close ended.stderr);
  group = 0;
  phase = returned;
}

over_steps : ProxySteps fresh_proxy over
over_steps =
    next
      (next
        (next (next ended_steps (command_waited finished refl refl))
          (finish_stdout refl (pipe_closed refl)))
        (finish_stderr refl (pipe_closed refl)))
      (group_waited refl refl)

run_returned_example :
    (over.stdout.done ≡ true)
    × (over.stderr.done ≡ true)
    × IsPast over
    × ((lost : List ℕ) × (over.stdout.written ≡ over.stdout.copied ++ lost))
    × ((lost : List ℕ) × (over.stderr.written ≡ over.stderr.copied ++ lost))
run_returned_example =
    run-returned (ok tt) (ok tt) (ok tt) (ok tt) fresh_proxy over started_proxy over_steps refl

output_lost_example :
    (q : Proxy) × ProxySteps fresh_proxy q
    × (q.phase ≡ waits_exit)
    × (q.exit ≡ some finished)
    × (q.stdout.written ≡ hi)
    × (q.stdout.pipe ≡ hi)
    × ((r : Proxy) × OwnSteps q r
        × (r.phase ≡ returned)
        × (r.stdout.broken ≡ false)
        × (r.stdout.written ≡ hi)
        × (r.stdout.copied ≡ []))
    × ((r : Proxy) × OwnSteps q r
        × (r.phase ≡ returned)
        × (r.stdout.broken ≡ false)
        × (r.stdout.written ≡ hi)
        × (r.stdout.copied ≡ hi))
output_lost_example =
    output_may_be_lost (ok tt) (ok tt) (ok tt) (ok tt) fresh_proxy started_proxy hi finished
