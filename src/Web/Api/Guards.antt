-- ===== src/Web/Api/Guards.antt =====
-- A wrong token gets nothing from the endpoints of internal/web/api.go, and changes nothing.
use notmanytask.Base.{String, Bool, List, ◌≡◌, ap, false, arith}
use notmanytask.Base.Errors.{Result, ok}
use notmanytask.Base.Time.{Time}
use notmanytask.Config.{Config}
use notmanytask.Deadlines.Fetcher.{Current}
use notmanytask.Database.Gorm.{Gorm}
use notmanytask.Web.Attempt.{Reply}
use notmanytask.Web.Api.{
  ReportRequest, FlagRequest, OverrideRequest, ChangeGroupRequest, World, has_token, is_token_valid,
  report, create_flag_route, change_group, override_route, list_group_members, standings,
}
use notmanytask.Base.Float.{Float}
use notmanytask.Scorer.Types.{UserScores, ProjectNames}

-- A reply that refuses, and a world that stays.
abbrev pub Refused : {S A : Type 0} → World S → Reply A × World S → Type 0
Refused w (r, w') = (r.ok ≡ false) × (w' ≡ w)

module _ {S : Type 0} ⦃g : Gorm S⦄ (conf : Config) {W : Type 0} ⦃f : Float W⦄ (current : Current W)
    (w : World S) where
  -- Without a valid token every endpoint with a route refuses and leaves the database and the fresh pipelines as
  -- they were: report, flag creation, overrides, group changes, the listing of a
  -- group and the standings.
  pub invalid_token-Refused :
      (token : String)
      → is_token_valid conf token ≡ false
      → ((body : ReportRequest) → body.token ≡ token → Refused w (report conf (ok body) w))
        × ((uuid : String) (now : Time) (body : FlagRequest)
            → body.token ≡ token
            → Refused w (create_flag_route conf current uuid now (ok body) w))
        × ((body : Result OverrideRequest) → Refused w (override_route conf current token body w))
        × ((body : ChangeGroupRequest)
            → body.token ≡ token
            → Refused w (change_group conf (ok body) w))
        × ((group : String) → Refused w (list_group_members conf token group w))
        × ((names : ProjectNames)
              (sort : (UserScores W → UserScores W → Bool)
                → List (UserScores W)
                → List (UserScores W))
              (query : String)
            → Refused w (standings conf current names sort token query w))
  unfolding standings report create_flag_route override_route change_group list_group_members
      is_token_valid
  invalid_token-Refused token bad = (
    λ body same. (
      ground (arith, ap (has_token conf.tokens) same, bad),
      ground (arith, ap (has_token conf.tokens) same, bad),
    ),
    λ uuid now body same. (
      ground (arith, ap (has_token conf.tokens) same, bad),
      ground (arith, ap (has_token conf.tokens) same, bad),
    ),
    λ body. (ground (arith, bad), ground (arith, bad)),
    λ body same. (
      ground (arith, ap (has_token conf.tokens) same, bad),
      ground (arith, ap (has_token conf.tokens) same, bad),
    ),
    λ group. (ground (arith, bad), ground (arith, bad)),
    λ names sort query. (ground (arith, bad), ground (arith, bad)),
  )
