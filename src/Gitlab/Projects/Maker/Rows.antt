-- ===== src/Gitlab/Projects/Maker/Rows.antt =====
-- What a success of maybeInitializeProject has done.
use notmanytask.Base.{ℕ, ◌≡◌, ◌≢◌, refl, String, Bool, true, false, Option, none, some, In}
use notmanytask.Base.Errors.{Result, ok, err, panic}
use notmanytask.Config.{GitLabConfig}
use notmanytask.Models.{User}
use notmanytask.Database.Gorm.{Gorm, TableLaws}
use notmanytask.Database.Users.{is_set, set_user_repository}
use notmanytask.Database.Users.Updates.{update_user-assigns}
use notmanytask.Gitlab.Names.{make_project_url}
use notmanytask.Gitlab.Api.{GitlabApi}
use notmanytask.Gitlab.Projects.{initialize_project}
use notmanytask.Gitlab.Projects.Maker.{
  with_repository, noted, record_url, after_initialize, unless_login, maybe_initialize_project,
}

noted-true :
    {S : Type 0} (user user' : User) (r : Result (Unit {0}) × S) (s' : S)
    → noted user r ≡ some (ok (true, user'), s')
    → (r ≡ (ok tt, s')) × (user' ≡ user)
noted-true user user' (ok _, s) s' e = (cc, cc)
noted-true user user' (err x, s) s' e = absurd (cc)
noted-true user user' (panic, s) s' e = absurd (cc)

unless_login-true :
    {S : Type 0} (a b : Bool) (o : Option (Result (Bool × User) × S)) (user user' : User) (s s' : S)
    → unless_login a b o user s ≡ some (ok (true, user'), s')
    → o ≡ some (ok (true, user'), s')
unless_login-true true true o user user' s s' e = e
unless_login-true true false o user user' s s' e = absurd (cc)
unless_login-true false b o user user' s s' e = absurd (cc)

module _ {S : Type 0} ⦃api : GitlabApi S⦄ ⦃g : Gorm S⦄ (conf : GitLabConfig)
    (translit : String → String) where
  record_url-true :
      (user user' : User) (url : Result String) (s s' : S)
      → record_url conf translit user url s ≡ some (ok (true, user'), s')
      → (t : String) × (url ≡ ok t)
        × (set_user_repository (with_repository t user) s ≡ (ok tt, s'))
        × (user' ≡ with_repository t user)
  record_url-true user user' (ok t) s s' e =
      let (a, b) = noted-true (with_repository t user) user' _ s' e in (t, refl, a, b)
  record_url-true user user' (err x) s s' e = absurd (cc)
  record_url-true user user' panic s s' e = absurd (cc)

  after_initialize-true :
      (user user' : User) (o : Option (Result (Unit {0}) × S)) (s' : S)
      → after_initialize conf translit user o ≡ some (ok (true, user'), s')
      → (s1 : S) × (o ≡ some (ok tt, s1))
        × (record_url conf translit user (make_project_url conf translit user) s1
            ≡ some (ok (true, user'), s'))
  after_initialize-true user user' none s' e = absurd (cc)
  after_initialize-true user user' (some (ok _, s)) s' e = (s, refl, e)
  after_initialize-true user user' (some (err x, s)) s' e = absurd (cc)
  after_initialize-true user user' (some (panic, s)) s' e = absurd (cc)

  module _ (live : User → Bool) (remove : User → User)
      (laws : TableLaws g.users live remove (λ r q. q ≡ r)) where
    -- On a table that meets the laws of gorm, if maybeInitializeProject answers true,
    -- InitializeProject has succeeded, and after it a user of the table with the same id, and no
    -- user with another id, was given the address of the project that belongs to the user's names.
    pub maybe_initialize_project-records :
        (fuel : ℕ) (user user' : User) (s s' : S)
        → maybe_initialize_project conf translit fuel user s ≡ some (ok (true, user'), s')
        → (url : String) × (s1 : S) × (initialize_project conf translit fuel user s
            ≡ some (ok tt, s1))
          × (make_project_url conf translit user ≡ ok url)
          × ((r : User) × In r (laws.rows s1)
              × (r.id ≡ user.id)
              × In (with_repository url r) (laws.rows s'))
          × ((q : User) → In q (laws.rows s1) → q.id ≢ user.id → In q (laws.rows s'))
    unfolding maybe_initialize_project set_user_repository
    maybe_initialize_project-records fuel user user' s s' e =
        let made =
          unless_login-true (is_set user.gitlab_id) (is_set user.gitlab_login) _ user user' s s'
            e in
        let (s1, first, second) = after_initialize-true user user' _ s' made in
        let (url, named, third, _) =
          record_url-true user user' (make_project_url conf translit user) s1 s' second in
        let (changed, others) =
          update_user-assigns live remove laws user.id (with_repository url) s1 s' third in
        (url, s1, first, named, changed, others)
