-- ===== src/Fuzz/Workers/Counts.antt =====
-- What the counters of RunFuzzing tell, and which runs come to an end.
use notmanytask.Base.{
  ℕ, zero, suc, ◌+◌, ◌≡◌, ◌≤◌, ◌⊎◌, refl, ap, inl, inr, String, Bool, true, false, not, Option,
  none, some, ℤ, List, [], ◌∷◌, get_elem?, set, arith,
}
use notmanytask.Base.Errors.{ok, bind-ok, deref-ok, deref}
use notmanytask.Models.{User}
use notmanytask.Fuzz.{SolutionInfo}
use notmanytask.Fuzz.Bot.{TgBot, MessageBuilder, user_link, notice}
use notmanytask.Fuzz.Workers.{
  Stage, Worker, Counters, WorkerStep, created, fuzzing, counted, leaving, left, gone, begin,
  run_ends, options_panic, link_panics, tell, notice_panics, group_done, running_sub,
}

abbrev pub total : (Worker → ℕ) → List Worker → ℕ
total f [] = 0
total f (w ∷ ws) = f w + total f ws

abbrev pub All : (Worker → Type 0) → List Worker → Type 0
All P [] = Unit {0}
All P (w ∷ ws) = P w × All P ws

pub total-set :
    (f : Worker → ℕ) (ws : List Worker) (id : ℕ) (w w' : Worker)
    → get_elem? ws id ≡ some w
    → total f (set ws id w') + f w ≡ total f ws + f w'
total-set f [] id w w' e = absurd (cc)
total-set f (v ∷ ws) zero w w' e = let same : v ≡ w = cc in let h = ap f same in omega arith
total-set f (v ∷ ws) (suc id) w w' e = omega (arith, total-set f ws id w w' e)

pub All-set :
    (P : Worker → Type 0) (ws : List Worker) (id : ℕ) (w' : Worker)
    → P w'
    → All P ws
    → All P (set ws id w')
All-set P [] id w' p all = all
All-set P (v ∷ ws) zero w' p all = (p, all.1)
All-set P (v ∷ ws) (suc id) w' p all = (all.0, All-set P ws id w' p all.1)

pub All-get_elem? :
    (P : Worker → Type 0) (ws : List Worker) (id : ℕ) (w : Worker)
    → get_elem? ws id ≡ some w
    → All P ws
    → P w
All-get_elem? P [] id w e all = absurd (cc)
All-get_elem? P (v ∷ ws) zero w e all = let same : v ≡ w = cc in rw (← same) all.0
All-get_elem? P (v ∷ ws) (suc id) w e all = All-get_elem? P ws id w e all.1

-- What a goroutine adds to `running` and to the counter of the WaitGroup.
abbrev pub stage_runs : Stage → ℕ
stage_runs created = 0
stage_runs fuzzing = 1
stage_runs counted = 1
stage_runs (leaving b) = 1
stage_runs (left b) = 1
stage_runs (gone b) = 0

abbrev pub stage_waits : Stage → ℕ
stage_waits created = 1
stage_waits fuzzing = 1
stage_waits counted = 1
stage_waits (leaving b) = 1
stage_waits (left b) = 0
stage_waits (gone b) = 0

-- What its result adds to `succeeded` and to `failed`.
abbrev pub result_passes : Option Bool → ℕ
result_passes (some true) = 1
result_passes (some false) = 0
result_passes none = 0

abbrev pub result_fails : Option Bool → ℕ
result_fails (some true) = 0
result_fails (some false) = 1
result_fails none = 0

abbrev pub runs : Worker → ℕ
runs w = stage_runs w.stage

abbrev pub waits : Worker → ℕ
waits w = stage_waits w.stage

abbrev pub passes : Worker → ℕ
passes w = result_passes w.result

abbrev pub fails : Worker → ℕ
fails w = result_fails w.result

abbrev pub flag_count : Bool → ℕ
flag_count true = 1
flag_count false = 0

abbrev pub finishes : Worker → ℕ
finishes w = flag_count w.finished

-- Behind its message, without a panic.
abbrev pub stage_told : Stage → Bool
stage_told created = false
stage_told fuzzing = false
stage_told counted = false
stage_told (leaving panicked) = not panicked
stage_told (left panicked) = not panicked
stage_told (gone panicked) = not panicked

stage_told-counted : (s : Stage) → s ≡ counted → stage_told s ≡ false
stage_told-counted s e = rw e refl

-- A user whom a message can be written about: the login and the Telegram account are known.
abbrev pub IsKnown : SolutionInfo → Type 0
IsKnown info =
    (user : User) × (login : String) × (id : ℤ) × (info.user ≡ some user)
    × (user.gitlab_login ≡ some login)
    × (user.telegram_id ≡ some id)

module _ (api : TgBot) (bot : Option (Unit {0})) (task : String) where
  notice-IsKnown :
      (info : SolutionInfo) (passed : Bool) (link spent counts : String) (m : Option MessageBuilder)
      → user_link api info.user ≡ ok link
      → notice api bot task info.user link passed spent counts ≡ ok m
      → IsKnown info
  unfolding user_link notice
  notice-IsKnown info passed link spent counts m l n =
      let (user, du, rest) = bind-ok (deref info.user) _ m n in
      let (login, dl, _) = bind-ok (deref user.gitlab_login) _ m rest in
      let e = deref-ok info.user user du in
      let (id, di, _) = bind-ok (deref user.telegram_id) _ link (rw e at l) in
      (user, login, id, e, deref-ok user.gitlab_login login dl, deref-ok user.telegram_id id di)

  pub record IsHonest (w : Worker) : Type 0 where
    pub unrun : (w.stage ≡ created) ⊎ (w.stage ≡ fuzzing) → w.result ≡ none
    pub agrees : flag_count w.finished ≡ result_passes w.result
    pub told : stage_told w.stage ≡ true → IsKnown w.info × ((b : Bool) × (w.result ≡ some b))

  -- What one turn changes of the counters is what it changes of the goroutine.
  pub record Turns (w : Worker) (c : Counters) (w' : Worker) (c' : Counters) : Type 0 where
    pub run_turn : c'.running + runs w ≡ c.running + runs w'
    pub pass_turn : c'.succeeded + passes w ≡ c.succeeded + passes w'
    pub fail_turn : c'.failed + fails w ≡ c.failed + fails w'
    pub wait_turn : c'.group + waits w ≡ c.group + waits w'
    pub honest_turn : IsHonest w'

  pub WorkerStep-Turns :
      {w w' : Worker} {c c' : Counters}
      → WorkerStep api bot task w c w' c'
      → IsHonest w
      → runs w ≤ c.running
      → waits w ≤ c.group
      → Turns w c w' c'
  WorkerStep-Turns (begin e) h r g =
      let a = ap stage_runs e in
      let b = ap stage_waits e in
      record {
        run_turn = omega arith;
        pass_turn = omega arith;
        fail_turn = omega arith;
        wait_turn = omega arith;
        honest_turn = record {
          unrun = λ _. h.unrun (inl e);
          agrees = h.agrees;
          told = λ t. absurd (cc);
        };
      }
  WorkerStep-Turns (run_ends true link e l) h r g =
      let a = ap stage_runs e in
      let b = ap stage_waits e in
      let p = ap result_passes (h.unrun (inr e)) in
      let f = ap result_fails (h.unrun (inr e)) in
      record {
        run_turn = omega arith;
        pass_turn = omega arith;
        fail_turn = omega arith;
        wait_turn = omega arith;
        honest_turn = record {
          unrun = λ s. elim s [ inl x ↦ absurd (cc) | inr x ↦ absurd (cc) ];
          agrees = refl;
          told = λ t. absurd (cc);
        };
      }
  WorkerStep-Turns (run_ends false link e l) h r g =
      let a = ap stage_runs e in
      let b = ap stage_waits e in
      let p = ap result_passes (h.unrun (inr e)) in
      let f = ap result_fails (h.unrun (inr e)) in
      record {
        run_turn = omega arith;
        pass_turn = omega arith;
        fail_turn = omega arith;
        wait_turn = omega arith;
        honest_turn = record {
          unrun = λ s. elim s [ inl x ↦ absurd (cc) | inr x ↦ absurd (cc) ];
          agrees = refl;
          told = λ t. absurd (cc);
        };
      }
  WorkerStep-Turns (options_panic x e) h r g =
      let a = ap stage_runs e in
      let b = ap stage_waits e in
      record {
        run_turn = omega arith;
        pass_turn = omega arith;
        fail_turn = omega arith;
        wait_turn = omega arith;
        honest_turn = record {
          unrun = λ s. elim s [ inl y ↦ absurd (cc) | inr y ↦ absurd (cc) ];
          agrees = h.agrees;
          told = λ t. absurd (cc);
        };
      }
  WorkerStep-Turns (link_panics e l) h r g =
      let a = ap stage_runs e in
      let b = ap stage_waits e in
      record {
        run_turn = omega arith;
        pass_turn = omega arith;
        fail_turn = omega arith;
        wait_turn = omega arith;
        honest_turn = record {
          unrun = λ s. elim s [ inl x ↦ absurd (cc) | inr x ↦ absurd (cc) ];
          agrees = h.agrees;
          told = λ t. absurd (cc);
        };
      }
  WorkerStep-Turns {w} (tell passed link spent counts m e q l n) h r g =
      let a = ap stage_runs e in
      let b = ap stage_waits e in
      record {
        run_turn = omega arith;
        pass_turn = omega arith;
        fail_turn = omega arith;
        wait_turn = omega arith;
        honest_turn = record {
          unrun = λ s. elim s [ inl x ↦ absurd (cc) | inr x ↦ absurd (cc) ];
          agrees = h.agrees;
          told = λ _. (notice-IsKnown w.info passed link spent counts m l n, (passed, q));
        };
      }
  WorkerStep-Turns (notice_panics passed link spent counts e q l n) h r g =
      let a = ap stage_runs e in
      let b = ap stage_waits e in
      record {
        run_turn = omega arith;
        pass_turn = omega arith;
        fail_turn = omega arith;
        wait_turn = omega arith;
        honest_turn = record {
          unrun = λ s. elim s [ inl x ↦ absurd (cc) | inr x ↦ absurd (cc) ];
          agrees = h.agrees;
          told = λ t. absurd (cc);
        };
      }
  WorkerStep-Turns (group_done panicked e) h r g =
      let a = ap stage_runs e in
      let b = ap stage_waits e in
      record {
        run_turn = omega arith;
        pass_turn = omega arith;
        fail_turn = omega arith;
        wait_turn = omega arith;
        honest_turn = record {
          unrun = λ s. elim s [ inl x ↦ absurd (cc) | inr x ↦ absurd (cc) ];
          agrees = h.agrees;
          told = λ t. h.told (rw e t);
        };
      }
  WorkerStep-Turns (running_sub panicked e) h r g =
      let a = ap stage_runs e in
      let b = ap stage_waits e in
      record {
        run_turn = omega arith;
        pass_turn = omega arith;
        fail_turn = omega arith;
        wait_turn = omega arith;
        honest_turn = record {
          unrun = λ s. elim s [ inl x ↦ absurd (cc) | inr x ↦ absurd (cc) ];
          agrees = h.agrees;
          told = λ t. h.told (rw e t);
        };
      }
