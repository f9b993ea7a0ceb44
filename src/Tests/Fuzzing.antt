-- ===== src/Tests/Fuzzing.antt =====
-- A run of the fuzzers with one solution.
use notmanytask.Base.{
  ◌+◌, ◌≡◌, refl, String, true, false, none, some, pos, [], ◌∷◌, length, Dict, In,
}
use notmanytask.Base.Errors.{ok, panic}
use notmanytask.Models.{User}
use notmanytask.Fuzz.{SolutionInfo}
use notmanytask.Fuzz.Bot.{TgBot, user_link, notice}
use notmanytask.Fuzz.Workers.{
  Fuzzing, FuzzSteps, gone, start_workers, begin, run_ends, tell, group_done, running_sub, turn,
  stay, next,
}
use notmanytask.Fuzz.Workers.Counts.{total, finishes, IsKnown}
use notmanytask.Fuzz.Workers.Ends.{fuzzing-ends}
use notmanytask.Tests.Samples.{student}

abbrev api : TgBot
api = record {
  connect = λ token. ok tt;
  escape_text = λ s. s;
  sprintf = λ s. s;
  post = λ chat text. ok tt;
}

abbrev in_telegram : User
in_telegram = record student { telegram_id = some (pos 5) }

abbrev info : SolutionInfo
info = record { binary = "bins/sum"; user = some in_telegram }

abbrev bins : Dict String SolutionInfo
bins = ("solutions/sum", info) ∷ []

abbrev link : String
link = "[Ivan Petrov](tg://user?id=5)"

link_is : user_link api info.user ≡ ok link
unfolding user_link
link_is = refl

notice_is : notice api none "sum" info.user link true "1s" "0/1" ≡ ok none
unfolding notice
notice_is = refl

-- Without a user there is no message, but a panic.
notice_panics : notice api none "sum" none link true "1s" "0/1" ≡ panic
unfolding notice
notice_panics = refl

abbrev passed : Fuzzing
passed = record {
  workers =
      record {
        solution = "solutions/sum";
        info = info;
        stage = gone false;
        result = some true;
        finished = true;
      }
      ∷ [];
  counters = record { running = 0; failed = 0; succeeded = 1; group = 0 };
  alive = true;
}

passed_steps : FuzzSteps api none "sum" (start_workers bins) passed
unfolding start_workers
passed_steps =
    next
      (next
        (next
          (next (next stay (turn 0 _ _ _ refl refl (begin refl)))
            (turn 0 _ _ _ refl refl (run_ends true link refl link_is)))
          (turn 0 _ _ _ refl refl (tell true link "1s" "0/1" none refl refl link_is notice_is)))
        (turn 0 _ _ _ refl refl (group_done false refl)))
      (turn 0 _ _ _ refl refl (running_sub false refl))

fuzzing_example :
    (passed.counters.running ≡ 0)
    × (passed.counters.group ≡ 0)
    × (passed.counters.failed + passed.counters.succeeded ≡ length bins)
    × (passed.counters.succeeded ≡ total finishes passed.workers)
    × ((solution : String) (i : SolutionInfo) → In (solution, i) bins → IsKnown i)
fuzzing_example = fuzzing-ends api none "sum" bins passed passed_steps (refl, tt)
