-- ===== src/Database/Overrides.antt =====
-- The overrides of internal/database/database.go. The model embeds gorm.Model, so a row that is
-- deleted stays in the table, with the time of its deletion.
pub mod Visibility
use notmanytask.Base.{ℕ, String, ◌≡◌, Bool, true, not, ◌&&◌, none, List, ℤ, ◌==◌, string_eq}
use notmanytask.Base.Errors.{Result}
use notmanytask.Models.{OverriddenScore, PipelineStatus}
use notmanytask.Database.Gorm.{Gorm}

-- OnConflict on "gitlab_login" and "task" assigns "score" and "status".
abbrev pub same_override : OverriddenScore → OverriddenScore → Bool
same_override row o = row.gitlab_login == o.gitlab_login && row.task == o.task

abbrev pub set_score : OverriddenScore → OverriddenScore → OverriddenScore
set_score row o = record row { score = o.score; status = o.status }

abbrev pub new_override : String → String → ℤ → PipelineStatus → OverriddenScore
new_override login task score status = record {
  id = 0;
  deleted_at = none;
  gitlab_login = login;
  task = task;
  score = score;
  status = status;
}

module _ {S : Type 0} ⦃g : Gorm S⦄ where
  unfoldable pub list_user_overrides : String → S → Result (List OverriddenScore)
  list_user_overrides login s = g.overrides.find (λ o. o.gitlab_login == login) s

  unfoldable pub list_overrides : S → Result (List OverriddenScore)
  list_overrides s = g.overrides.find (λ o. true) s

  unfoldable pub add_override : String → String → ℤ → PipelineStatus → S → Result (Unit {0}) × S
  add_override login task score status s =
      g.overrides.upsert same_override set_score (new_override login task score status) s

  unfoldable pub remove_override : String → String → S → Result (Unit {0}) × S
  remove_override login task s =
      g.overrides.delete (λ o. o.gitlab_login == login && o.task == task) s
