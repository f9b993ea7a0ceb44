-- ===== src/Fuzz.antt =====
-- cmd/fuzz/main.go: which solutions are fetched and how they are built.
pub mod Shell
pub mod Bot
pub mod Workers
use Prim.Native.String.{◌++◌}
use notmanytask.Base.{
  String, Bool, false, ◌&&◌, not, Option, none, some, List, [], ◌∷◌, map, Dict, lookup, insert,
  string_eq, if◌then◌else◌,
}
use notmanytask.Base.Errors.{Result, ok, err, panic, deref, ◌>>=◌}
use notmanytask.Models.{User}
use notmanytask.Scorer.Types.{ScoredUser}
use notmanytask.Client.{Transport, load_users, load_standings, solved_rows}

pub record Args : Type 0 where
  pub no_cache : Bool
  pub gitlab_group : String
  pub endpoint : String
  pub task_name : String
  pub task_target : String

-- The machine: what os.Stat tells of a path (an error other than that it does not exist, or whether
-- it exists), and what a shell command and `git clone` of a branch come to.
pub record Machine : Type 0 where
  pub exists : String → Result Bool
  pub clone : String → String → String → Result (Unit {0})
  pub shell : String → String → Result (Unit {0})

abbrev pub is_cached : Bool → Result Bool → Bool
is_cached no_cache (ok found) = not no_cache && found
is_cached no_cache (err e) = false
is_cached no_cache panic = false

-- A solution that was fetched before is kept, unless the cache is switched off.
unfoldable pub fetch_submit : Machine → String → String → String → String → Bool → Result (Unit {0})
fetch_submit machine group project task dest no_cache =
    let output = dest ++ ("/" ++ (project ++ ("/" ++ task))) in
    if is_cached no_cache (machine.exists output)
    then ok tt
    else machine.clone ("git@gitlab.com:" ++ (group ++ ("/" ++ (project ++ ".git"))))
        ("submits/" ++ task) output

-- The users by their GitLab logins; of two with the same login the later counts.
abbrev by_login : User → Option String → Dict String User → Dict String User
by_login user none users = users
by_login user (some login) users = insert login user users

unfoldable pub users_by_login : List User → Dict String User → Dict String User
unfolding insert
users_by_login [] users = users
users_by_login (user ∷ rest) users = users_by_login rest (by_login user user.gitlab_login users)

unfoldable pub solution_path : String → ScoredUser → String
solution_path task u = "solutions/" ++ (u.gitlab_project ++ ("/" ++ task))

-- The map from the path of a solution to its user, who may be unknown.
unfoldable pub solution_users :
    String
    → Dict String User
    → List ScoredUser
    → Dict String (Option User)
    → Dict String (Option User)
unfolding solution_path insert lookup
solution_users task users [] res = res
solution_users task users (u ∷ us) res =
    solution_users task users us (insert (solution_path task u) (lookup u.gitlab_login users) res)

-- errgroup.Group.Wait: all jobs have run, and one of their errors is answered, here the first.
unfoldable pub wait_all : List (Result (Unit {0})) → Result (Unit {0})
wait_all [] = ok tt
wait_all (ok _ ∷ rs) = wait_all rs
wait_all (err e ∷ rs) = err e
wait_all (panic ∷ rs) = panic

-- FetchSubmits: the standings are asked for with the endpoint in the place of the group.
unfoldable pub fetch_submits :
    {W : Type 0} → Machine → Transport W → Args → Result (Dict String (Option User))
unfolding load_users load_standings solved_rows fetch_submit users_by_login solution_users wait_all
fetch_submits machine t args = do
  users ← load_users t "hse"
  loaded ← load_standings t args.endpoint
  standings ← deref loaded
  let solved = solved_rows args.task_name standings.users
  _ ← wait_all (
      map
        (λ u.
          fetch_submit machine args.gitlab_group u.gitlab_project args.task_name "solutions"
            args.no_cache)
        solved)
  ok (solution_users args.task_name (users_by_login users []) solved [])

-- solutionInfo
pub record SolutionInfo : Type 0 where
  pub binary : String
  pub user : Option User

-- The shell commands that build a solution, each with its directory.
unfoldable pub build_commands : Args → String → List (String × String)
build_commands args solution =
    let build = "build/" ++ solution in
    let target = args.task_target in
    ("mkdir -p " ++ build, "")
    ∷ ("rsync -a repo/ " ++ build, "")
    ∷ ("rsync -a " ++ (solution ++ ("/ " ++ (build ++ "/tasks"))), "")
    ∷ ("rm -rf build", build)
    ∷ ("cmake -B build -DCMAKE_BUILD_TYPE=ASAN", build)
    ∷ ("cmake --build build --target " ++ (target ++ " --parallel 4"), build)
    ∷ ("mkdir -p bins/" ++ solution, "")
    ∷ (
      "cp " ++ (build ++ ("/build/" ++ (target ++ (" bins/" ++ (solution ++ ("/" ++ target)))))),
      "",
    )
    ∷ []

-- MustRun panics on an error, and a panic of a job ends the process.
abbrev pub must : Result (Unit {0}) → Result (Unit {0}) → Result (Unit {0})
must (ok _) later = later
must (err e) later = panic
must panic later = panic

unfoldable pub run_commands : Machine → List (String × String) → Result (Unit {0})
run_commands machine [] = ok tt
run_commands machine ((line, dir) ∷ rest) =
    must (machine.shell line dir) (run_commands machine rest)

unfoldable pub solution_info : Args → String × Option User → String × SolutionInfo
solution_info args (solution, user) =
    (solution, record { binary = "bins/" ++ (solution ++ ("/" ++ args.task_target)); user = user })

-- BuildSubmits
unfoldable pub build_submits :
    {W : Type 0} → Machine → Transport W → Args → Result (Dict String SolutionInfo)
unfolding fetch_submits build_commands run_commands solution_info
build_submits machine t args = do
  solutions ← fetch_submits machine t args
  _ ← machine.clone "git@gitlab.com:danlark/cpp-advanced-hse.git" "main" "repo"
  _ ← wait_all (map (λ e. run_commands machine (build_commands args e.0)) solutions)
  ok (map (solution_info args) solutions)
