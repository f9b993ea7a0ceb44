-- ===== src/Config.antt =====
-- internal/config: the settings that the modelled code reads.
use notmanytask.Base.{
  String, Bool, Option, none, some, List, [], ◌∷◌, ℤ, ◌==◌, string_eq, if◌then◌else◌,
}
use notmanytask.Base.Time.{Duration}

-- GitLabConfig.Application
pub record ApplicationConfig : Type 0 where
  pub client_id : String
  pub secret : String

pub record GitLabConfig : Type 0 where
  pub base_url : String
  pub group_name : String
  pub group_id : ℤ
  pub default_readme : String
  pub task_url_prefix : String
  pub application : ApplicationConfig
  pub ci_config_path : String

-- EndpointsConfig.Api
pub record ApiEndpoints : Type 0 where
  pub report : String
  pub flag : String
  pub override : String
  pub change_group : String
  pub standings : String
  pub list_group_members : String

pub record EndpointsConfig : Type 0 where
  pub host_name : String
  pub home : String
  pub flag : String
  pub login : String
  pub logout : String
  pub signup : String
  pub standings : String
  pub retakes : String
  pub oauth_callback : String
  pub telegram_login : String
  pub telegram_callback : String
  pub api : ApiEndpoints

-- ServerConfig.Cookies
pub record CookiesConfig : Type 0 where
  pub authentication_key : String
  pub encryption_key : String

pub record GroupConfig : Type 0 where
  pub name : String
  pub secret : String
  pub deadlines_url : String
  pub deadlines_format : String
  pub show_marks : Bool
  pub default : Bool

abbrev pub GroupsConfig : Type 0
GroupsConfig = List GroupConfig

pub record PullIntervalsConfig : Type 0 where
  pub deadlines : Duration
  pub projects : Option Duration
  pub pipelines : Option Duration

pub record TelegramBotConfig : Type 0 where
  pub bot_login : String
  pub bot_token : String

pub record Config : Type 0 where
  pub gitlab : GitLabConfig
  pub endpoints : EndpointsConfig
  pub course_name : String
  pub cookies : CookiesConfig
  pub tokens : List String  -- Testing.Tokens
  pub groups : GroupsConfig
  pub pull_intervals : PullIntervalsConfig
  pub telegram : Option TelegramBotConfig

unfoldable pub find_group : GroupsConfig → String → Option GroupConfig
find_group [] name = none
find_group (g ∷ gs) name = if g.name == name then some g else find_group gs name

unfoldable pub first_default : GroupsConfig → Option GroupConfig
first_default [] = none
first_default (g ∷ gs) = if g.default then some g else first_default gs

abbrev first_group : GroupsConfig → Option GroupConfig
first_group [] = none
first_group (g ∷ gs) = some g

abbrev or_first : Option GroupConfig → GroupsConfig → Option GroupConfig
or_first (some g) gs = some g
or_first none gs = first_group gs

unfoldable pub find_default_group : GroupsConfig → Option GroupConfig
unfolding first_default
find_default_group gs = or_first (first_default gs) gs
