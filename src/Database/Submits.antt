-- ===== src/Database/Submits.antt =====
-- The pipelines of internal/database/database.go.
pub mod Upsert
use notmanytask.Base.{String, Bool, true, List, eqb_ℤ, ◌==◌, string_eq}
use notmanytask.Base.Errors.{Result}
use notmanytask.Models.{Pipeline}
use notmanytask.Database.Gorm.{Gorm}

-- OnConflict on "id" assigns "status".
abbrev pub same_id : Pipeline → Pipeline → Bool
same_id row new' = eqb_ℤ row.id new'.id

abbrev pub set_status : Pipeline → Pipeline → Pipeline
set_status row new' = record row { status = new'.status }

module _ {S : Type 0} ⦃g : Gorm S⦄ where
  unfoldable pub add_pipeline : Pipeline → S → Result (Unit {0}) × S
  add_pipeline pipeline s = g.pipelines.upsert same_id set_status pipeline s

  unfoldable pub list_project_pipelines : String → S → Result (List Pipeline)
  list_project_pipelines project s = g.pipelines.find (λ p. p.project == project) s

  unfoldable pub list_all_pipelines : S → Result (List Pipeline)
  list_all_pipelines s = g.pipelines.find (λ p. true) s
