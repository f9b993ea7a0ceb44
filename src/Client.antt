-- ===== src/Client.antt =====
-- pkg/client/notmanytask/client.go: the client of the service's endpoints, and what cmd/cli prints.
pub mod Submits
pub mod Cli
use Prim.Native.String.{◌++◌}
use notmanytask.Base.{
  ℕ, String, Bool, true, false, ◌&&◌, Option, none, some, List, [], ◌∷◌, ◌++◌ as append, ℤ, pos,
  ltb_ℤ, ◌==◌, string_eq, if◌then◌else◌,
}
use notmanytask.Base.Errors.{Error, Result, ok, err, panic, new, wrapped, deref, ◌>>=◌}
use notmanytask.Models.{User}
use notmanytask.Scorer.Types.{ScoredTask, ScoredTaskGroup, ScoredUser, UserScores, Standings}
use notmanytask.Scorer.Status.{task_success}
use notmanytask.Web.Api.{OverrideRequest}
use notmanytask.Web.Attempt.{Reply}

-- The requests, through the library: an error, or the reply as it is decoded. `show` prints a reply.
pub record Transport (W : Type 0) : Type 0 where
  pub standings : String → Result (Reply (Standings W))
  pub members : String → Result (Reply (List User))
  pub override : OverrideRequest → Result (Reply (Unit {0}))
  pub show : Reply (Standings W) → String

-- `if !res.Ok { return nil, … }`
abbrev pub if_ok : {A : Type 0} → Bool → String → Result A → Result A
if_ok true msg r = r
if_ok false msg r = err (new msg)

module _ {W : Type 0} (t : Transport W) where
  -- The pointer to the standings may be nil.
  unfoldable pub load_standings : String → Result (Option (Standings W))
  load_standings group = do
    res ← wrapped "failed to fetch standings" (t.standings group)
    if_ok res.ok
        ("failed to fetch standings: " ++ (res.error ++ (" (res: " ++ (t.show res ++ ")"))))
        (ok res.payload)

  abbrev or_no_users : Option (List User) → List User
  or_no_users none = []
  or_no_users (some users) = users

  unfoldable pub load_users : String → Result (List User)
  load_users group = do
    res ← wrapped "failed to fetch group members" (t.members group)
    if_ok res.ok ("failed to fetch group members: " ++ res.error) (ok (or_no_users res.payload))

  -- `token` is the client's.
  unfoldable pub override_score : String → String → String → String → ℤ → Result (Unit {0})
  override_score token user task status score = do
    res ←
        t.override
          (record { token = token; task = task; login = user; score = score; status = status })
    if_ok res.ok ("failed to override score: " ++ res.error) (ok tt)

-- A task that the user has solved, and with points.
unfoldable pub is_solved : String → ScoredTask → Bool
is_solved name task = task.task == name && task.status == task_success && ltb_ℤ (pos 0) task.score

-- The three loops of LoadSuccessfulSubmits: a user is appended once for each such task.
unfoldable pub solved_tasks :
    {W : Type 0} → String → UserScores W → List ScoredTask → List ScoredUser
unfolding is_solved
solved_tasks name row [] = []
solved_tasks name row (task ∷ tasks) =
    let rest = solved_tasks name row tasks in if is_solved name task then row.user ∷ rest else rest

unfoldable pub solved_groups :
    {W : Type 0} → String → UserScores W → List ScoredTaskGroup → List ScoredUser
unfolding solved_tasks
solved_groups name row [] = []
solved_groups name row (group ∷ groups) =
    append (solved_tasks name row group.tasks) (solved_groups name row groups)

unfoldable pub solved_rows : {W : Type 0} → String → List (UserScores W) → List ScoredUser
unfolding solved_groups
solved_rows name [] = []
solved_rows name (row ∷ rows) = append (solved_groups name row row.groups) (solved_rows name rows)

unfoldable pub load_successful_submits :
    {W : Type 0} → Transport W → String → String → Result (List ScoredUser)
unfolding load_standings solved_rows
load_successful_submits t group task_name = do
  loaded ← load_standings t group
  standings ← deref loaded
  ok (solved_rows task_name standings.users)

-- username of cmd/cli/standings.go: the last name first.
unfoldable pub username : ScoredUser → String
username u =
    if u.gitlab_login == "denisrtyhb"
    then u.first_name ++ (" " ++ u.last_name)
    else u.last_name ++ (" " ++ u.first_name)
