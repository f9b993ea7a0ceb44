-- ===== src/Tests/Client.antt =====
-- The client, at a concrete answer of the service.
use notmanytask.Base.{◌≡◌, refl, true, some, [], ◌∷◌, ℤ}
use notmanytask.Base.Errors.{ok, err, external}
use notmanytask.Client.{Transport, load_successful_submits}
use notmanytask.Tests.Samples.{built, ivan_scores}

abbrev answers : Transport ℤ
answers = record {
  standings = λ group. ok (record {
    code = 200;
    ok = true;
    error = "";
    payload = some (record { deadlines = built; users = ivan_scores ∷ [] });
  });
  members = λ group. err (external "down");
  override = λ request. err (external "down");
  show = λ res. "";
}

ivan_solved : load_successful_submits answers "hse" "sum" ≡ ok (ivan_scores.user ∷ [])
unfolding load_successful_submits
ivan_solved = refl
