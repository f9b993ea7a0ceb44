-- ===== src/Web/Wiring.antt =====
-- What internal/web/run.go plugs together: the scorer over the database and the GitLab names.
use notmanytask.Base.{String}
use notmanytask.Config.{GitLabConfig}
use notmanytask.Database.Gorm.{Gorm}
use notmanytask.Database.Users.{list_group_users}
use notmanytask.Database.Submits.{list_all_pipelines, list_project_pipelines}
use notmanytask.Database.Flags.{list_submitted_flags, list_user_flags}
use notmanytask.Database.Overrides.{list_overrides, list_user_overrides}
use notmanytask.Gitlab.Names.{make_project_name, make_pipeline_url, make_branch_url, make_task_url}
use notmanytask.Scorer.Types.{ProjectNames, ScorerDb}

unfoldable pub scorer_db : {S : Type 0} ⦃g : Gorm S⦄ → S → ScorerDb
unfolding list_group_users list_all_pipelines list_project_pipelines list_submitted_flags
    list_user_flags list_overrides list_user_overrides
scorer_db s = record {
  list_group_users = λ group. list_group_users group s;
  list_all_pipelines = list_all_pipelines s;
  list_project_pipelines = λ project. list_project_pipelines project s;
  list_submitted_flags = list_submitted_flags s;
  list_user_flags = λ login. list_user_flags login s;
  list_overrides = list_overrides s;
  list_user_overrides = λ login. list_user_overrides login s;
}

-- The client of GitLab as the scorer's ProjectNameFactory.
unfoldable pub project_names : GitLabConfig → (String → String) → (String → String) → ProjectNames
unfolding make_project_name make_pipeline_url make_branch_url make_task_url
project_names conf translit title_case = record {
  make_project_name = make_project_name conf translit;
  make_pipeline_url = make_pipeline_url conf translit;
  make_branch_url = make_branch_url conf translit;
  make_task_url = make_task_url conf;
  title_case = title_case;
}
