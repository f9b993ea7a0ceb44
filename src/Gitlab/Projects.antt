-- ===== src/Gitlab/Projects.antt =====
-- InitializeProject of internal/gitlab/gitlab.go, a chain of requests to GitLab.
pub mod Members
pub mod Joins
pub mod Maker
use Prim.Native.String.{◌++◌}
use notmanytask.Base.{
  ℕ, zero, suc, String, Bool, true, false, Option, none, some, List, [], ◌∷◌, ℤ, eqb, eqb_ℤ, leb,
  ◌==◌, string_eq, ◌||◌, if◌then◌else◌,
}
use notmanytask.Base.Errors.{Error, Result, ok, err, panic, new, wrap, gitlab_error, deref}
use notmanytask.Config.{GitLabConfig}
use notmanytask.Models.{User}
use notmanytask.Database.Gorm.{Gorm}
use notmanytask.Database.Users.{list_users_without_repos, set_user_repository}
use notmanytask.Gitlab.Names.{make_project_name, make_project_url}
use notmanytask.Gitlab.Paging.{Pages}
use notmanytask.Gitlab.Api.{
  ProjectAnswer, CreateProjectOptions, CreateCommitOptions, GitlabApi, developer, maintainer,
}
use notmanytask.Gitlab.Calls.{
  Calls, pure, fail, crash, call, wrapping, follow, then_call, ◌>>=◌, ◌>>◌,
}

abbrev pub master : String
master = "master"

-- goerrors.As(err, &errresp) && errresp.Message == message
unfoldable pub has_message : String → Error → Bool
has_message message (wrap msg e) = has_message message e
has_message message (gitlab_error m) = m == message
has_message message _ = false

abbrev pub file_exists : String
file_exists = "{message: A file with this name already exists}"

abbrev pub push_forbidden : String
push_forbidden = "{message: 403 Forbidden - You are not allowed to push into this branch}"

abbrev pub already_protected : String
already_protected = "{message: Protected branch 'master' already exists}"

-- Some errors of a request are passed over.
abbrev pub tolerate :
    {S : Type 0} → (Error → Bool) → String → Result (Unit {0}) × S → Option (Result (Unit {0}) × S)
tolerate harmless msg (ok _, s) = some (ok tt, s)
tolerate harmless msg (err e, s) = some ((if harmless e then ok tt else err (wrap msg e)), s)
tolerate harmless msg (panic, s) = some (panic, s)

unfoldable pub has_member : ℤ → List ℤ → Bool
has_member id [] = false
has_member id (m ∷ ms) = if eqb_ℤ m id then true else has_member id ms

abbrev pub after_members :
    ℤ → Result (List ℤ × Pages) → (ℕ → Option (Result Bool)) → Option (Result Bool)
after_members id (err e) next = some (err (wrap "Failed to list project members" e))
after_members id panic next = some panic
after_members id (ok (ids, pages)) next =
    let rest = next pages.next_page in
    if has_member id ids
    then some (ok true)
    else if leb pages.total_pages pages.current_page
    then some (ok false)
    else rest

-- The loop over the pages of members, with fuel.
unfoldable pub find_member : (ℕ → Result (List ℤ × Pages)) → ℤ → ℕ → ℕ → Option (Result Bool)
unfolding has_member
find_member list id zero page = none
find_member list id (suc fuel) page =
    after_members id (list page) (λ next. find_member list id fuel next)

abbrev pub no_change : {S A : Type 0} → Option (Result A) → S → Option (Result A × S)
no_change none s = none
no_change (some r) s = some (r, s)

module _ {S : Type 0} ⦃api : GitlabApi S⦄ (conf : GitLabConfig) where
  unfoldable pub create_project : String → Calls S ℤ
  create_project name = wrapping "Failed to create project" (
      api.create_project (record {
        name = name;
        namespace_id = conf.group_id;
        default_branch = master;
        private = true;
        shared_runners = true;
        ci_config_path = conf.ci_config_path;
      }))

  abbrev pub found_project : Option Error → Option ℤ → Calls S ℤ
  found_project (some e) project = fail (wrap "Failed to find project" e)
  found_project none project = follow project

  -- The project that GetProject names, or a new one if the status is 404.
  unfoldable pub find_or_create : String → Option Error → Option ℕ → Option ℤ → Calls S ℤ
  unfolding create_project
  find_or_create name (some e) none project = fail (wrap "Failed to get project" e)
  find_or_create name none none project = crash
  find_or_create name error (some status) project =
      if eqb status 404 then create_project name else found_project error project

  unfoldable pub create_readme : ℤ → Calls S (Unit {0})
  unfolding has_message
  create_readme project s =
      tolerate (λ e. has_message file_exists e || has_message push_forbidden e)
        "Failed to create README"
        (api.create_commit project
          (record {
            branch = master;
            message = "Initialize repo";
            author_name = "notmanytask";
            author_email = "mail@notmanytask.org";
            file_path = "README.md";
            content = conf.default_readme;
          })
          s)

  unfoldable pub protect_master : ℤ → Calls S (Unit {0})
  unfolding has_message
  protect_master project s =
      tolerate (has_message already_protected) "Failed to protect master branch"
        (api.protect_branch project master maintainer maintainer maintainer s)

  unfoldable pub add_unless : Bool → ℤ → ℤ → Calls S (Unit {0})
  add_unless true project id = pure tt
  add_unless false project id =
      wrapping "Failed to add user to the project" (api.add_member project id developer)

  unfoldable pub is_member : ℕ → ℤ → ℤ → Calls S Bool
  unfolding find_member
  is_member fuel project id s =
      no_change (find_member (λ page. api.list_members project page s) id fuel 0) s

  unfoldable pub locate_project : String → Calls S ℤ
  unfolding find_or_create
  locate_project name s =
      let answer = api.get_project (conf.group_name ++ ("/" ++ name)) s in
      find_or_create name answer.error answer.status answer.project s

  -- From the project's name on.
  unfoldable pub prepare_project : ℕ → ℤ → String → Calls S (Unit {0})
  unfolding locate_project create_readme protect_master is_member add_unless
  prepare_project fuel id name = do
    project ← locate_project name
    _ ← create_readme project
    _ ← protect_master project
    found ← is_member fuel project id
    add_unless found project id

  module _ (translit : String → String) where
    abbrev pub prepare_named : ℕ → ℤ → Result String → Calls S (Unit {0})
    prepare_named fuel id (ok name) = prepare_project fuel id name
    prepare_named fuel id (err e) = fail e
    prepare_named fuel id panic = crash

    abbrev pub initialize_as : ℕ → User → Option ℤ → Option String → Calls S (Unit {0})
    initialize_as fuel user (some id) (some login) =
        prepare_named fuel id (make_project_name conf translit user)
    initialize_as fuel user (some id) none = fail (new "Empty gitlab user")
    initialize_as fuel user none login = fail (new "Empty gitlab user")

    unfoldable pub initialize_project : ℕ → User → Calls S (Unit {0})
    unfolding prepare_project make_project_name
    initialize_project fuel user = initialize_as fuel user user.gitlab_id user.gitlab_login
