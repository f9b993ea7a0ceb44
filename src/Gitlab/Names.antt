-- ===== src/Gitlab/Names.antt =====
-- The names and addresses of internal/gitlab/gitlab.go.
pub mod Laws
use Prim.Native.String.{◌++◌}
use notmanytask.Base.{String}
use notmanytask.Base.Errors.{Result, ok, deref, ◌>>=◌}
use notmanytask.Config.{GitLabConfig}
use notmanytask.Models.{User, Pipeline}
use notmanytask.Gitlab.Text.{drop_marks, drop_double_underscores, trim_prefix, int_text}

-- `translit` is Transliterate(name, "en").
unfoldable pub cleanup_name : (String → String) → String → String
unfolding drop_marks
cleanup_name translit name = drop_marks (translit name)

unfoldable pub cleanup_login : String → String
unfolding drop_double_underscores
cleanup_login login = drop_double_underscores login

module _ (conf : GitLabConfig) where
  unfoldable pub make_project_with_namespace : String → String
  make_project_with_namespace project = conf.group_name ++ ("/" ++ project)

  unfoldable pub make_task_url : String → String
  make_task_url task = conf.task_url_prefix ++ ("/" ++ task)

module _ (conf : GitLabConfig) (translit : String → String) where
  unfoldable pub make_project_name : User → Result String
  unfolding cleanup_name cleanup_login
  make_project_name user = do
    login ← deref user.gitlab_login
    ok (
        user.group_name
        ++ ("-"
            ++ (cleanup_name translit user.first_name
                ++ ("-"
                    ++ (cleanup_name translit user.last_name ++ ("-" ++ cleanup_login login))))))

  abbrev pub in_group : String → String
  in_group name = conf.base_url ++ ("/" ++ (conf.group_name ++ ("/" ++ name)))

  unfoldable pub make_project_url : User → Result String
  unfolding make_project_name
  make_project_url user = do name ← make_project_name user; ok (in_group name)

  unfoldable pub make_project_submits_url : User → Result String
  unfolding make_project_url
  make_project_submits_url user = do url ← make_project_url user; ok (url ++ "/-/jobs")

  unfoldable pub make_pipeline_url : User → Pipeline → Result String
  unfolding make_project_name int_text
  make_pipeline_url user pipeline = do
    name ← make_project_name user
    ok (in_group name ++ ("/-/pipelines/" ++ int_text pipeline.id))

  unfoldable pub make_branch_url : User → Pipeline → Result String
  unfolding make_project_name
  make_branch_url user pipeline = do
    name ← make_project_name user
    ok (in_group name ++ ("/-/tree/submits/" ++ pipeline.task))

abbrev pub branch_prefix : String
branch_prefix = "submits/"

abbrev pub tasks_prefix : String
tasks_prefix = "tasks/"

-- ParseTaskFromBranch of pipelines.go.
unfoldable pub parse_task_from_branch : String → String
unfolding trim_prefix
parse_task_from_branch task = trim_prefix (trim_prefix task branch_prefix) tasks_prefix
