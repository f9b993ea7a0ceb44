-- ===== src/Crashme/Proxy/Output.antt =====
-- What of the process's output has been passed on when commandProxy.run returns.
use notmanytask.Base.{
  ℕ, ◌+◌, ◌≡◌, refl, sym, ap, ◌∙◌, ◌⊎◌, inl, inr, Bool, true, false, some, List, [], ◌++◌, arith,
}
use notmanytask.Base.Errors.{Result, ok, err, panic, ◌>>=◌}
use mathlib.Core.List.{append_assoc}
use notmanytask.Crashme.Connection.{Exit}
use notmanytask.Crashme.Proxy.{
  Copier, Proxy, OwnSteps, idle, further, ProxyStep, ProxySteps, waits_exit, returned, stay, next,
  copied_of, finish, written_to, new_command_proxy, start, fresh_proxy,
}

-- All that was written has been copied, up to a rest, which is in the pipe as long as the goroutine
-- runs.
abbrev pub Keeps : Copier → Type 0
Keeps c = (lost : List ℕ) × (c.written ≡ c.copied ++ lost) × (c.done ≡ false → lost ≡ c.pipe)

-- Whether a goroutine is counted by the WaitGroup.
abbrev pub pending : Bool → ℕ
pending true = 0
pending false = 1

-- The process has ended, and run's end of its pipes is closed.
abbrev pub IsPast : Proxy → Type 0
IsPast p =
    (e : Exit) × (p.exit ≡ some e)
    × (p.stdout.closed ≡ true)
    × (p.stderr.closed ≡ true)
    × (p.input_open ≡ false)

pub record IsSound (p : Proxy) : Type 0 where
  pub counted : p.group ≡ pending p.stdout.done + pending p.stderr.done
  pub stdout_kept : Keeps p.stdout
  pub stderr_kept : Keeps p.stderr
  pub past : (p.phase ≡ waits_exit) ⊎ IsPast p
  pub all_done : p.phase ≡ returned → p.group ≡ 0

copied_of-Keeps :
    (c : Copier) (chunk rest : List ℕ)
    → Keeps c
    → c.done ≡ false
    → c.pipe ≡ chunk ++ rest
    → Keeps (copied_of c chunk rest)
copied_of-Keeps c chunk rest (lost, e, h) d q = (
  rest,
  e ∙ ap (λ t. c.copied ++ t) (h d ∙ q) ∙ sym (append_assoc c.copied chunk rest),
  λ _. refl,
)

written_to-Keeps : (c : Copier) (text : List ℕ) → Keeps c → Keeps (written_to c text)
written_to-Keeps c text (lost, e, h) = (
  lost ++ text,
  ap (λ t. t ++ text) e ∙ append_assoc c.copied lost text,
  λ d. ap (λ t. t ++ text) (h d),
)

finish-Keeps : (c : Copier) → Keeps c → Keeps (finish c)
finish-Keeps c (lost, e, h) = (lost, e, λ d. absurd (cc))

ProxyStep-IsSound : {p q : Proxy} → ProxyStep p q → IsSound p → IsSound q
ProxyStep-IsSound {p} (ProxyStep.write_stdout text x) s = record {
  counted = s.counted;
  stdout_kept = written_to-Keeps p.stdout text s.stdout_kept;
  stderr_kept = s.stderr_kept;
  past = s.past;
  all_done = s.all_done;
}
ProxyStep-IsSound {p} (ProxyStep.write_stderr text x) s = record {
  counted = s.counted;
  stdout_kept = s.stdout_kept;
  stderr_kept = written_to-Keeps p.stderr text s.stderr_kept;
  past = s.past;
  all_done = s.all_done;
}
ProxyStep-IsSound {p} (ProxyStep.end_process e x) s = record {
  counted = s.counted;
  stdout_kept = s.stdout_kept;
  stderr_kept = s.stderr_kept;
  past = elim s.past [ inl w ↦ inl w | inr (f, y, o, r, i) ↦ absurd (cc) ];
  all_done = s.all_done;
}
ProxyStep-IsSound {p} (ProxyStep.feed_stdin text x) s = record {
  counted = s.counted;
  stdout_kept = s.stdout_kept;
  stderr_kept = s.stderr_kept;
  past = s.past;
  all_done = s.all_done;
}
ProxyStep-IsSound {p} (ProxyStep.close_stdin) s = record {
  counted = s.counted;
  stdout_kept = s.stdout_kept;
  stderr_kept = s.stderr_kept;
  past = elim s.past [ inl w ↦ inl w | inr (e, x, o, r, i) ↦ inr (e, x, o, r, refl) ];
  all_done = s.all_done;
}
ProxyStep-IsSound {p} (ProxyStep.break_stdout) s = record {
  counted = s.counted;
  stdout_kept = s.stdout_kept;
  stderr_kept = s.stderr_kept;
  past = s.past;
  all_done = s.all_done;
}
ProxyStep-IsSound {p} (ProxyStep.break_stderr) s = record {
  counted = s.counted;
  stdout_kept = s.stdout_kept;
  stderr_kept = s.stderr_kept;
  past = s.past;
  all_done = s.all_done;
}
ProxyStep-IsSound {p} (ProxyStep.copy_stdout chunk rest d c b q) s = record {
  counted = s.counted;
  stdout_kept = copied_of-Keeps p.stdout chunk rest s.stdout_kept d q;
  stderr_kept = s.stderr_kept;
  past = s.past;
  all_done = s.all_done;
}
ProxyStep-IsSound {p} (ProxyStep.copy_stderr chunk rest d c b q) s = record {
  counted = s.counted;
  stdout_kept = s.stdout_kept;
  stderr_kept = copied_of-Keeps p.stderr chunk rest s.stderr_kept d q;
  past = s.past;
  all_done = s.all_done;
}
ProxyStep-IsSound {p} (ProxyStep.finish_stdout d x) s = record {
  counted = let n = s.counted in let m = ap pending d in omega arith;
  stdout_kept = finish-Keeps p.stdout s.stdout_kept;
  stderr_kept = s.stderr_kept;
  past = elim s.past [ inl w ↦ inl w | inr (e, x, o, r, i) ↦ inr (e, x, refl, r, i) ];
  all_done = λ r. omega (arith, s.all_done r);
}
ProxyStep-IsSound {p} (ProxyStep.finish_stderr d x) s = record {
  counted = let n = s.counted in let m = ap pending d in omega arith;
  stdout_kept = s.stdout_kept;
  stderr_kept = finish-Keeps p.stderr s.stderr_kept;
  past = elim s.past [ inl w ↦ inl w | inr (e, x, o, r, i) ↦ inr (e, x, o, refl, i) ];
  all_done = λ r. omega (arith, s.all_done r);
}
ProxyStep-IsSound {p} (ProxyStep.command_waited e w x) s = record {
  counted = s.counted;
  stdout_kept = s.stdout_kept;
  stderr_kept = s.stderr_kept;
  past = inr (e, x, refl, refl, refl);
  all_done = λ r. absurd (cc);
}
ProxyStep-IsSound {p} (ProxyStep.group_waited w z) s = record {
  counted = s.counted;
  stdout_kept = s.stdout_kept;
  stderr_kept = s.stderr_kept;
  past = elim s.past [ inl v ↦ absurd (cc) | inr h ↦ inr h ];
  all_done = λ _. z;
}

pub ProxySteps-IsSound : {p q : Proxy} → ProxySteps p q → IsSound p → IsSound q
ProxySteps-IsSound stay s = s
ProxySteps-IsSound (next sts st) s = ProxyStep-IsSound st (ProxySteps-IsSound sts s)

pub OwnSteps-IsSound : {p q : Proxy} → OwnSteps p q → IsSound p → IsSound q
OwnSteps-IsSound idle s = s
OwnSteps-IsSound (further sts st own) s = ProxyStep-IsSound st (OwnSteps-IsSound sts s)

pub started_cases :
    (out errs input started : Result (Unit {0})) {p : Proxy}
    → (new_command_proxy out errs input >>= start started) ≡ ok p
    → p ≡ fresh_proxy
unfolding new_command_proxy start
started_cases (ok _) (ok _) (ok _) (ok _) e = cc
started_cases (ok _) (ok _) (ok _) (err x) e = absurd (cc)
started_cases (ok _) (ok _) (ok _) panic e = absurd (cc)
started_cases (ok _) (ok _) (err x) s e = absurd (cc)
started_cases (ok _) (ok _) panic s e = absurd (cc)
started_cases (ok _) (err x) i s e = absurd (cc)
started_cases (ok _) panic i s e = absurd (cc)
started_cases (err x) o i s e = absurd (cc)
started_cases panic o i s e = absurd (cc)

module _ (out errs input started : Result (Unit {0})) (p : Proxy) where
  pub started-IsSound : (new_command_proxy out errs input >>= start started) ≡ ok p → IsSound p
  started-IsSound e = rw (started_cases out errs input started e) (record {
    counted = omega arith;
    stdout_kept = ([], refl, λ _. refl);
    stderr_kept = ([], refl, λ _. refl);
    past = inl refl;
    all_done = λ r. absurd (cc);
  })

  -- However the process, the goroutines and the connection take turns: when run returns, both
  -- goroutines that copy the output have called wg.Done, the process has ended and all of run's pipes
  -- are closed, and what has been passed on is the beginning of what the process has written, on both
  -- of its outputs.
  pub run-returned :
      (q : Proxy)
      → (new_command_proxy out errs input >>= start started) ≡ ok p
      → ProxySteps p q
      → q.phase ≡ returned
      → (q.stdout.done ≡ true)
        × (q.stderr.done ≡ true)
        × IsPast q
        × ((lost : List ℕ) × (q.stdout.written ≡ q.stdout.copied ++ lost))
        × ((lost : List ℕ) × (q.stderr.written ≡ q.stderr.copied ++ lost))
  run-returned q e sts r =
      let s = ProxySteps-IsSound sts (started-IsSound e) in
      let (lost, k, _) = s.stdout_kept in
      let (lost', k', _) = s.stderr_kept in
      let n = s.counted in
      let z = s.all_done r in
      (
        ground arith,
        ground arith,
        elim s.past [ inl w ↦ absurd (cc) | inr h ↦ h ],
        (lost, k),
        (lost', k'),
      )
