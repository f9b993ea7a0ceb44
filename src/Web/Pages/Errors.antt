-- ===== src/Web/Pages/Errors.antt =====
-- What the pages of scores do with an error.
use mathlib.Core.List.{reverse}
use notmanytask.Base.{String, ◌≡◌, refl, sym, ap, ◌∙◌, Bool, Option, none, some, List}
use notmanytask.Base.Errors.{Error, Result, ok, err, panic, bind-ok, ok_inj}
use notmanytask.Base.Float.{Float}
use notmanytask.Config.{Config}
use notmanytask.Models.{User}
use notmanytask.Database.Gorm.{Gorm}
use notmanytask.Database.Users.{find_user_by_gitlab_login}
use notmanytask.Deadlines.Types.{Deadlines}
use notmanytask.Scorer.Types.{UserScores, ProjectNames}
use notmanytask.Scorer.Board.{calc_user_scores}
use notmanytask.Web.Wiring.{scorer_db}
use notmanytask.Web.Pages.{
  Cache, ScoresPage, make_links, value_of, reverse_scores, scores_page, scores_of_found,
  render_home_page, render_cheater_page,
}
use notmanytask.Web.Pages.Columns.{reverse_scores-some}

module _ (conf : Config) (translit : String → String) {W : Type 0} where
  -- A page of scores that is rendered has scores, in the reverse order of groups, and no error.
  abbrev pub Rendered : Result (UserScores W) → ScoresPage W → Type 0
  Rendered scored page =
      (page.error ≡ none)
      × ((scores : UserScores W) × (scored ≡ ok scores)
          × (page.scores ≡ record scores { groups = reverse scores.groups }))

  scores_page-err :
      (e : Error) (user : Option User) → scores_page conf translit {W = W} (err e) user ≡ panic
  unfolding scores_page reverse_scores
  scores_page-err e user = refl

  scores_page-ok :
      (scored : Result (UserScores W)) (user : Option User) (page : ScoresPage W)
      → scores_page conf translit scored user ≡ ok page
      → Rendered scored page
  unfolding scores_page reverse_scores
  scores_page-ok (ok scores) user page e =
      let (turned, q, e1) = bind-ok (reverse_scores (some scores)) _ page e in
      let (links, _, e2) = bind-ok (make_links conf translit user) _ page e1 in
      (
        ap (λ (p : ScoresPage W). p.error) (sym (ok_inj _ page e2)),
        (
          scores,
          refl,
          ap (λ (p : ScoresPage W). p.scores) (sym (ok_inj _ page e2))
              ∙ ok_inj turned _ (sym q ∙ reverse_scores-some scores),
        ),
      )
  scores_page-ok (err x) user page e = absurd (cc)
  scores_page-ok panic user page e = absurd (cc)

  module _ {S C : Type 0} ⦃f : Float W⦄ ⦃g : Gorm S⦄ (names : ProjectNames)
      (group_deadlines : String → Option (Deadlines W))
      (sort : (UserScores W → UserScores W → Bool) → List (UserScores W) → List (UserScores W))
      (cache : Cache W C) where
    -- If the scorer answers an error, the home page panics, and so does the cheater's page if the
    -- user is not found. A home page or cheater's page that is shown has no error, and the scores
    -- that the scorer answered with their groups in the reverse order.
    pub scores_pages-Rendered :
        (user : User) (login : String) (s : S)
        → ((e : Error)
            → calc_user_scores names group_deadlines (scorer_db s) user ≡ err e
            → render_home_page conf translit names group_deadlines sort cache user s ≡ panic)
          × ((e : Error)
              → find_user_by_gitlab_login login s ≡ err e
              → render_cheater_page conf translit names group_deadlines sort cache login s ≡ panic)
          × ((page : ScoresPage W)
              → render_home_page conf translit names group_deadlines sort cache user s ≡ ok page
              → Rendered (calc_user_scores names group_deadlines (scorer_db s) user) page)
          × ((page : ScoresPage W)
              → render_cheater_page conf translit names group_deadlines sort cache login s ≡ ok page
              → Rendered
                  (scores_of_found conf translit names group_deadlines sort cache
                    (find_user_by_gitlab_login login s)
                    s)
                  page)
    unfolding render_home_page render_cheater_page
    scores_pages-Rendered user login s = (
      λ e h. ap (λ r. scores_page conf translit r (some user)) h ∙ scores_page-err e (some user),
      λ e h.
          ap
            (λ r.
              scores_page conf translit
                (scores_of_found conf translit names group_deadlines sort cache r s) (value_of r))
            h
          ∙ scores_page-err e none,
      λ page h. scores_page-ok _ (some user) page h,
      λ page h. scores_page-ok _ _ page h,
    )
