-- ===== src/Gitlab/Projects/Maker.antt =====
-- internal/gitlab/projects.go: projects are made for the users that come through a channel, and in
-- sweeps over the users without a repository.
pub mod Rows
pub mod Run
pub mod Limits
use notmanytask.Base.{
  ℕ, suc, String, Bool, true, false, Option, none, some, List, [], ◌∷◌, if◌then◌else◌,
}
use notmanytask.Base.Errors.{Result, ok, err, panic}
use notmanytask.Config.{GitLabConfig}
use notmanytask.Models.{User}
use notmanytask.Database.Gorm.{Gorm}
use notmanytask.Database.Users.{is_set, list_users_without_repos, set_user_repository}
use notmanytask.Gitlab.Names.{make_project_url}
use notmanytask.Gitlab.Api.{GitlabApi}
use notmanytask.Gitlab.Calls.{Calls, pure, fail, crash, ◌>>=◌}
use notmanytask.Gitlab.Projects.{initialize_project}

abbrev pub with_repository : String → User → User
with_repository url user = record user {
  gitlab_user = record user.gitlab_user { repository = some url };
}

-- The errors are logged: the answer is whether all went well, with the user, whose repository may
-- have been assigned.
abbrev pub noted : {S : Type 0} → User → Result (Unit {0}) × S → Option (Result (Bool × User) × S)
noted user (ok _, s) = some (ok (true, user), s)
noted user (err e, s) = some (ok (false, user), s)
noted user (panic, s) = some (panic, s)

abbrev pub unless_login :
    {S : Type 0}
    → Bool
    → Bool
    → Option (Result (Bool × User) × S)
    → User
    → S
    → Option (Result (Bool × User) × S)
unless_login true true o user s = o
unless_login true false o user s = some (ok (false, user), s)
unless_login false b o user s = some (ok (false, user), s)

module _ {S : Type 0} ⦃api : GitlabApi S⦄ ⦃g : Gorm S⦄ (conf : GitLabConfig)
    (translit : String → String) where
  abbrev pub record_url : User → Result String → Calls S (Bool × User)
  record_url user (ok url) s =
      noted (with_repository url user) (set_user_repository (with_repository url user) s)
  record_url user (err e) s = some (err e, s)
  record_url user panic s = some (panic, s)

  abbrev pub after_initialize :
      User → Option (Result (Unit {0}) × S) → Option (Result (Bool × User) × S)
  after_initialize user none = none
  after_initialize user (some (ok _, s)) = record_url user (make_project_url conf translit user) s
  after_initialize user (some (err e, s)) = some (ok (false, user), s)
  after_initialize user (some (panic, s)) = some (panic, s)

  unfoldable pub maybe_initialize_project : ℕ → User → Calls S (Bool × User)
  unfolding initialize_project make_project_url set_user_repository
  maybe_initialize_project fuel user s =
      unless_login (is_set user.gitlab_id) (is_set user.gitlab_login)
        (after_initialize user (initialize_project conf translit fuel user s)) user s

  -- The users of one sweep; the answer is numProjectsInitialized.
  unfoldable pub initialize_all : ℕ → List User → ℕ → Calls S ℕ
  unfolding maybe_initialize_project
  initialize_all fuel [] n = pure n
  initialize_all fuel (user ∷ users) n = do
    (done, _) ← maybe_initialize_project fuel user
    initialize_all fuel users (if done then suc n else n)

  abbrev pub sweep_over : ℕ → Result (List User) → Calls S ℕ
  sweep_over fuel (ok users) = initialize_all fuel users 0
  sweep_over fuel (err e) = pure 0
  sweep_over fuel panic = crash

  unfoldable pub initialize_missing_projects : ℕ → Calls S ℕ
  unfolding initialize_all list_users_without_repos
  initialize_missing_projects fuel s = sweep_over fuel (list_users_without_repos s) s
