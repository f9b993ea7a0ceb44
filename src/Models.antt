-- ===== src/Models.antt =====
-- internal/models: the rows of the database's tables. Of gorm.Model the timestamps that no code
-- reads are left out.
use notmanytask.Base.{ℕ, String, Option, Bool, ℤ}
use notmanytask.Base.Time.{Time}

pub record Flag : Type 0 where
  pub id : String
  pub task : String
  pub gitlab_login : Option String
  pub created_at : Time

-- `deleted_at` comes with gorm.Model, and marks a row as deleted.
pub record OverriddenScore : Type 0 where
  pub id : ℕ
  pub deleted_at : Option Time
  pub gitlab_login : String
  pub task : String
  pub score : ℤ
  pub status : String

abbrev pub PipelineStatus : Type 0
PipelineStatus = String

pub record Pipeline : Type 0 where
  pub id : ℤ
  pub project : String
  pub task : String
  pub status : PipelineStatus
  pub started_at : Time

abbrev pub status_banned : PipelineStatus
status_banned = "banned"

abbrev pub status_failed : PipelineStatus
status_failed = "failed"

abbrev pub status_pending : PipelineStatus
status_pending = "pending"

abbrev pub status_running : PipelineStatus
status_running = "running"

abbrev pub status_success : PipelineStatus
status_success = "success"

abbrev pub status_canceled : PipelineStatus
status_canceled = "canceled"

pub record GitlabUser : Type 0 where
  pub gitlab_id : Option ℤ
  pub gitlab_login : Option String
  pub repository : Option String

pub record User : Type 0 where
  pub id : ℕ
  pub gitlab_user : GitlabUser
  pub open gitlab_user use *
  pub first_name : String
  pub last_name : String
  pub group_name : String
  pub telegram_id : Option ℤ
  pub has_retake : Bool

pub record Session : Type 0 where
  pub id : ℕ
  pub token : String
  pub user_id : ℕ
