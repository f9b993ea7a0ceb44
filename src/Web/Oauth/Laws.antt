-- ===== src/Web/Oauth/Laws.antt =====
-- When the return from GitLab's login in internal/web/login.go links an account.
use notmanytask.Base.{
  String, ◌≡◌, refl, ap, ◌∙◌, ◌⊎◌, inl, inr, false, ◌&&◌, Option, none, some, [], ◌∷◌, ◌++◌,
  Bool-cases,
}
use notmanytask.Base.Errors.{Result, ok, err, panic}
use notmanytask.Config.{Config}
use notmanytask.Models.{User, Session}
use notmanytask.Database.Gorm.{Gorm}
use notmanytask.Database.Users.{
  is_set, find_user_by_gitlab_id, set_user_gitlab_account, create_session,
}
use notmanytask.Web.Session.{
  Page, Cookie, Visit, keep_cookie, set_token, redirect_to_signup, clear_session,
  fill_session_for_user,
}
use notmanytask.Web.Oauth.{
  GitlabAccount, same_state, gitlab_failed, linked, oauth, after_fill, after_link, enter,
  by_account, with_session,
}
use notmanytask.Web.Signup.Laws.{clear_session-db}
use notmanytask.Database.Errors.{is_duplicate_key}

kept-queue :
    {S : Type 0} ⦃g : Gorm S⦄ (saved : Result (Unit {0})) (c : Cookie) (v : Visit S)
    → (keep_cookie saved c v).queue ≡ v.queue
kept-queue (ok _) c v = refl
kept-queue (err e) c v = refl
kept-queue panic c v = refl

module _ {S : Type 0} ⦃g : Gorm S⦄ (conf : Config) (saved : Result (Unit {0})) where
  -- A handler's answer queues no user, or it queues the one whose account was linked.
  abbrev pub QueuesLinked : Result GitlabAccount → Visit S → Page × Visit S → Type 0
  QueuesLinked answer v (page, v') =
      (v'.queue ≡ v.queue)
      ⊎ ((account : GitlabAccount) × (user : User) × (answer ≡ ok account)
          × ((set_user_gitlab_account user.id (linked account user).gitlab_user v.db).0 ≡ ok tt)
          × ((is_set user.gitlab_login && is_set user.gitlab_id) ≡ false)
          × (v'.queue ≡ v.queue ++ (linked account user ∷ [])))

  rejected-queue : (msg : String) (v : Visit S) → (redirect_to_signup saved msg v).1.queue ≡ v.queue
  unfolding redirect_to_signup clear_session
  rejected-queue msg v = kept-queue saved _ v

  after_fill-queue :
      (r : Result (Unit {0})) (v : Visit S) → (after_fill conf saved (r, v)).1.queue ≡ v.queue
  after_fill-queue (ok _) v = refl
  after_fill-queue (err e) v = rejected-queue _ v
  after_fill-queue panic v = refl

  set_token-queue : (r : Result Session) (v : Visit S) → (set_token saved r v).1.queue ≡ v.queue
  set_token-queue (ok session) v = kept-queue saved _ v
  set_token-queue (err e) v = refl
  set_token-queue panic v = refl

  fill-queue :
      (token : String) (user : User) (v : Visit S)
      → (after_fill conf saved (fill_session_for_user saved token user v)).1.queue ≡ v.queue
  unfolding fill_session_for_user
  fill-queue token user v =
      after_fill-queue _ _ ∙ set_token-queue (create_session token user.id v.db).0 _

  after_link-queue :
      (answer : Result GitlabAccount) (account : GitlabAccount) (user : User) (v w : Visit S)
      → w.queue ≡ v.queue
      → answer ≡ ok account
      → (is_set user.gitlab_login && is_set user.gitlab_id) ≡ false
      → (r : Result (Unit {0}))
      → (set_user_gitlab_account user.id (linked account user).gitlab_user v.db).0 ≡ r
      → QueuesLinked answer v (after_link conf saved (linked account user) r w)
  after_link-queue answer account user v w same told free (ok _) e =
      inr (account, user, told, e, free, ap (λ q. q ++ (linked account user ∷ [])) same)
  after_link-queue answer account user v w same told free (err x) e =
      elim (Bool-cases (is_duplicate_key x)) [
        | inl dup ↦ inl (rw dup (rejected-queue _ w) ∙ same)
        | inr other ↦ inl (rw other (rejected-queue _ w) ∙ same)
      ]
  after_link-queue answer account user v w same told free panic e = inl same

  enter-queue :
      (token : String) (answer : Result GitlabAccount) (account : GitlabAccount) (user : User)
      (v : Visit S)
      → answer ≡ ok account
      → QueuesLinked answer v (enter conf saved token account user v)
  enter-queue token answer account user v told =
      elim (Bool-cases (is_set user.gitlab_login && is_set user.gitlab_id)) [
        | inl has ↦ rw has (inl (fill-queue token user v))
        | inr free ↦ rw free (after_link-queue answer account user v _ refl told free _ refl)
      ]

  with_session-queue :
      (token : String) (answer : Result GitlabAccount) (v : Visit S)
      (found : Result (Option (User × Session)))
      → QueuesLinked answer v (with_session conf saved token answer found v)
  with_session-queue token answer v (err e) = inl (rejected-queue _ v)
  with_session-queue token answer v panic = inl refl
  with_session-queue token (err e) v (ok found) = inl (rejected-queue _ v)
  with_session-queue token panic v (ok found) = inl refl
  with_session-queue token (ok account) v (ok (some (user, session))) =
      enter-queue token (ok account) account user v refl
  with_session-queue token (ok account) v (ok none) = by_id (find_user_by_gitlab_id account.id v.db)
    where
      by_id :
          (r : Result User) → QueuesLinked (ok account) v (by_account conf saved token account r v)
      by_id (ok user) = enter-queue token (ok account) account user v refl
      by_id (err e) = inl (rejected-queue _ v)
      by_id panic = inl refl

  -- The return from GitLab's login queues no user for a project, or it queues the one user to whom the
  -- account that GitLab told was written, who had no account so far; with another state than the
  -- cookie's it queues none and leaves the database as it is.
  pub oauth-queue :
      (state token : String) (answer : Result GitlabAccount) (v : Visit S)
      → QueuesLinked answer v (oauth conf saved state token answer v)
        × (same_state v.cookie.oauth_state state ≡ false
            → ((oauth conf saved state token answer v).1.queue ≡ v.queue)
              × ((oauth conf saved state token answer v).1.db ≡ v.db))
  unfolding oauth
  oauth-queue state token answer v = elim (Bool-cases (same_state v.cookie.oauth_state state)) [
    | inl e ↦ (rw e (with_session-queue token answer v _), λ other. absurd (cc (e, other)))
    | inr e ↦ rw e (
      inl (rejected-queue gitlab_failed v),
      λ _. (rejected-queue gitlab_failed v, clear_session-db saved v),
    )
  ]
