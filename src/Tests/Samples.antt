-- ===== src/Tests/Samples.antt =====
-- Data for the tests. Floats are integers here, with truncating division.
use notmanytask.Base.{
  ℕ, String, ◌*◌, true, false, none, some, List, [], ◌∷◌, ℤ, pos, ◌+ℤ◌, ◌-ℤ◌, ltb_ℤ, eqb_ℤ,
  pos_part, ◌/◌, if◌then◌else◌,
}
use notmanytask.Base.Float.{Float}
use notmanytask.Base.Errors.{ok}
use notmanytask.Models.{
  User, Pipeline, PipelineStatus, Flag, OverriddenScore, status_success, status_failed,
}
use notmanytask.Config.{Config, GitLabConfig, GroupConfig}
use notmanytask.Deadlines.Policy.{linear}
use notmanytask.Deadlines.Types.{Task, TaskGroup, Deadlines}
use notmanytask.Scorer.Types.{UserScores, ProjectNames}

instance abbrev pub int_float : Float ℤ
int_float = record {
  of_int = λ z. z;
  to_int = λ z. z;
  ratio = λ p q. pos (p / q);
  add = λ x y. x +ℤ y;
  sub = λ x y. x -ℤ y;
  mul = λ x y. pos (pos_part x * pos_part y);
  div = λ x y. pos (pos_part x / pos_part y);
  lt = ltb_ℤ;
  eq = eqb_ℤ;
  max = λ x y. if ltb_ℤ x y then y else x;
  exp = λ x. pos 1 +ℤ x;
}

abbrev pub student : User
student = record {
  id = 7;
  gitlab_user = record {
    gitlab_id = some (pos 70);
    gitlab_login = some "ivan";
    repository = some "hse/ivan";
  };
  first_name = "Ivan";
  last_name = "Petrov";
  group_name = "hse";
  telegram_id = none;
  has_retake = false;
}

abbrev pub newcomer : User
newcomer = record student {
  id = 8;
  gitlab_user = record { gitlab_id = none; gitlab_login = none; repository = none };
}

abbrev pub pipeline : ℕ → String → PipelineStatus → ℕ → Pipeline
pipeline id task status at = record {
  id = pos id;
  project = "hse-Ivan-Petrov-ivan";
  task = task;
  status = status;
  started_at = pos at;
}

abbrev pub failed_run : Pipeline
failed_run = pipeline 1 "sum" status_failed 10

abbrev pub good_run : Pipeline
good_run = pipeline 2 "sum" status_success 20

abbrev pub runs : List Pipeline
runs = failed_run ∷ good_run ∷ []

abbrev pub taken_flag : Flag
taken_flag = record {
  id = "{FLAG-crash-1}";
  task = "crash";
  gitlab_login = some "ivan";
  created_at = pos 5;
}

abbrev pub free_flag : Flag
free_flag = record {
  id = "{FLAG-crash-2}";
  task = "crash";
  gitlab_login = none;
  created_at = pos 6;
}

abbrev pub sum_task : Task
sum_task = record { task = "sum"; score = pos 100; crashme = false }

abbrev pub crash_task : Task
crash_task = record { task = "crash"; score = pos 50; crashme = true }

abbrev pub first_group : TaskGroup
first_group = record {
  title = "01-basics";
  group = "";
  deadline = pos 1000;
  start = pos 0;
  tasks = sum_task ∷ crash_task ∷ [];
}

abbrev pub raw_deadlines : Deadlines ℤ
raw_deadlines = record {
  assignments = first_group ∷ [];
  scoring = record {
    policies =
        record { name = "soft"; kind = "linear"; policy = some (linear (pos 100) (pos 0)) } ∷ [];
    groups = record { name = "main"; weight = pos 10; max_score = pos 0; policy = "soft" } ∷ [];
    default_group = "main";
    final_deadline = some (pos 2000);
    retake_penalty = pos 0;
  };
  policies = [];
  groups = [];
}

-- What buildScoringGroups makes of them.
abbrev pub built : Deadlines ℤ
built = record raw_deadlines {
  scoring = record raw_deadlines.scoring {
    groups = record { name = "main"; weight = pos 10; max_score = pos 150; policy = "soft" } ∷ [];
  };
  policies = ("soft", some (linear (pos 100) (pos 0))) ∷ [];
  groups = ("main", 0) ∷ [];
}

abbrev pub override_row : OverriddenScore
override_row = record {
  id = 3;
  deleted_at = none;
  gitlab_login = "ivan";
  task = "sum";
  score = pos 42;
  status = status_success;
}

abbrev pub plain_names : ProjectNames
plain_names = record {
  make_project_name = λ u. ok "hse-Ivan-Petrov-ivan";
  make_pipeline_url = λ u p. ok "pipeline";
  make_branch_url = λ u p. ok "branch";
  make_task_url = λ t. t;
  title_case = λ t. t;
}

abbrev pub gitlab_conf : GitLabConfig
gitlab_conf = record {
  base_url = "https://gitlab";
  application = record { client_id = "app"; secret = "s3" };
  group_name = "hse";
  group_id = pos 1;
  default_readme = "";
  task_url_prefix = "https://tasks";
  ci_config_path = "";
}

abbrev pub hse_group : GroupConfig
hse_group = record {
  name = "hse";
  secret = "open";
  deadlines_url = "u";
  deadlines_format = "v2";
  show_marks = true;
  default = true;
}

abbrev pub conf : Config
conf = record {
  gitlab = gitlab_conf;
  endpoints = record {
    host_name = "https://tasks";
    home = "/";
    flag = "/flag";
    login = "/login";
    logout = "/logout";
    signup = "/signup";
    standings = "/standings";
    retakes = "/retakes";
    oauth_callback = "/finish";
    telegram_login = "/telegram";
    telegram_callback = "/telegram/finish";
    api = record {
      report = "/api/report";
      flag = "/api/flag";
      override = "/api/override";
      change_group = "/api/group";
      standings = "/api/standings";
      list_group_members = "/api/members";
    };
  };
  course_name = "course";
  cookies = record { authentication_key = "00"; encryption_key = "ff" };
  tokens = "secret" ∷ [];
  groups = hse_group ∷ [];
  pull_intervals = record { deadlines = pos 1; projects = none; pipelines = none };
  telegram = none;
}

-- What CalcUserScores answers for the student.
abbrev pub ivan_scores : UserScores ℤ
ivan_scores = record {
  groups =
      record {
        title = "01-basics";
        pretty_title = "basics";
        deadline = pos 1000;
        tasks =
            record {
              task = "sum";
              short_name = "sum";
              status = "success";
              score = pos 42;
              max_score = pos 100;
              overridden = true;
              task_url = "sum";
              pipeline_url = "pipeline";
              branch_url = "branch";
            }
            ∷ record {
              task = "crash";
              short_name = "crash";
              status = "success";
              score = pos 50;
              max_score = pos 50;
              overridden = false;
              task_url = "crash";
              pipeline_url = "";
              branch_url = "";
            }
            ∷ [];
        score = pos 92;
        max_score = pos 150;
      }
      ∷ [];
  score = pos 92;
  max_score = pos 150;
  final_mark = pos 6;
  user = record {
    first_name = "Ivan";
    last_name = "Petrov";
    gitlab_login = "ivan";
    gitlab_project = "hse-Ivan-Petrov-ivan";
  };
}
