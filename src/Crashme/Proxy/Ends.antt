-- ===== src/Crashme/Proxy/Ends.antt =====
-- How commandProxy.run comes to return, and what it may leave behind.
use notmanytask.Base.{ℕ, ◌≡◌, refl, sym, false, some, List, []}
use mathlib.Core.List.{append-nil}
use notmanytask.Base.Errors.{Result, ok, ◌>>=◌}
use notmanytask.Crashme.Connection.{Exit}
use notmanytask.Crashme.Proxy.{
  Proxy, ProxySteps, OwnSteps, idle, further, copy_stdout, end_of_file, waits_exit, returned, stay,
  next, new_command_proxy, start, write_stdout, end_process, command_waited, finish_stdout,
  finish_stderr, group_waited, pipe_closed,
}
use notmanytask.Crashme.Proxy.Output.{started_cases}

module _ (out errs input started : Result (Unit {0})) (p : Proxy)
    (made : (new_command_proxy out errs input >>= start started) ≡ ok p) where
  -- Whatever the process writes and however it ends, it can come to this: all that it wrote is in the
  -- pipe, and the connection takes what it is sent, then and later. From there run returns with
  -- nothing of it passed on, if cmd.Wait closes the pipe before the goroutine has read it, and with
  -- all of it, if the goroutine is first; the process and the connection have no part in this.
  pub output_may_be_lost :
      (text : List ℕ) (e : Exit)
      → (q : Proxy) × ProxySteps p q
        × (q.phase ≡ waits_exit)
        × (q.exit ≡ some e)
        × (q.stdout.written ≡ text)
        × (q.stdout.pipe ≡ text)
        × ((r : Proxy) × OwnSteps q r
            × (r.phase ≡ returned)
            × (r.stdout.broken ≡ false)
            × (r.stdout.written ≡ text)
            × (r.stdout.copied ≡ []))
        × ((r : Proxy) × OwnSteps q r
            × (r.phase ≡ returned)
            × (r.stdout.broken ≡ false)
            × (r.stdout.written ≡ text)
            × (r.stdout.copied ≡ text))
  output_may_be_lost text e =
      let unread = next (next stay (write_stdout text refl)) (end_process e refl) in
      let lost =
        further
          (further
            (further (further idle (command_waited e refl refl) tt)
              (finish_stdout refl (pipe_closed refl)) tt)
            (finish_stderr refl (pipe_closed refl)) tt)
          (group_waited refl refl) tt in
      let passed =
        further
          (further
            (further
              (further
                (further idle (copy_stdout text [] refl refl refl (sym (append-nil text))) tt)
                (finish_stdout refl (end_of_file e refl refl)) tt)
              (finish_stderr refl (end_of_file e refl refl)) tt)
            (command_waited e refl refl) tt)
          (group_waited refl refl) tt in
      rw (started_cases out errs input started made) (
        _,
        unread,
        refl,
        refl,
        refl,
        refl,
        (_, lost, refl, refl, refl, refl),
        (_, passed, refl, refl, refl, refl),
      )
