-- ===== src/Client/Cli.antt =====
-- cmd/cli: what the commands print, and how they end.
use Prim.Native.String.{◌++◌, compare}
use text.Mathlib.Text.{is_lt}
use notmanytask.Base.{ℕ, String, Bool, List, map, ℤ}
use notmanytask.Base.Errors.{Result, ok, err, panic, deref, ◌>>=◌, error_text}
use notmanytask.Scorer.Types.{UserScores}
use notmanytask.Client.{
  Transport, load_standings, load_successful_submits, override_score, username,
}

-- The comparison of two rows that sort.Slice is given.
unfoldable pub username_less : {W : Type 0} → UserScores W → UserScores W → Bool
unfolding username
username_less lhs rhs = is_lt (compare (username lhs.user) (username rhs.user))

module _ {W : Type 0} (t : Transport W) where
  -- dumpStandings: `sort` is sort.Slice, and `show` prints a mark with three digits.
  unfoldable pub dump_standings :
      ((UserScores W → UserScores W → Bool) → List (UserScores W) → List (UserScores W))
      → (W → String)
      → String
      → Result (List String)
  unfolding load_standings username
  dump_standings sort show group = do
    loaded ← load_standings t group
    standings ← deref loaded
    ok (
        map (λ u. username u.user ++ ("\t" ++ (show u.final_mark ++ "\n")))
          (sort username_less standings.users))

  -- dumpSuccessfulSubmits: a login is printed for each task that its user has solved.
  unfoldable pub dump_successful_submits : String → String → Result (List String)
  unfolding load_successful_submits
  dump_successful_submits group task = do
    users ← load_successful_submits t group task
    ok (map (λ u. u.gitlab_login ++ "\n") users)

  -- overrideScores, with the token of the environment.
  unfoldable pub override_scores : String → String → String → String → ℤ → Result (Unit {0})
  unfolding override_score
  override_scores token task user status score = override_score t token user task status score

-- main: the exit code, and what is written to the standard error. A panic exits with 2.
unfoldable pub main : {A : Type 0} → Result A → ℕ × String
main (ok _) = (0, "")
main (err e) = (1, "Command failed: " ++ error_text e)
main panic = (2, "")
