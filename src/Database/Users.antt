-- ===== src/Database/Users.antt =====
-- The users and sessions of internal/database/database.go.
pub mod Linking
pub mod Updates
use notmanytask.Base.{
  ℕ, String, Bool, true, false, not, ◌&&◌, ◌||◌, Option, none, some, List, ℤ, eqb, eqb_ℤ, ltb, ◌==◌,
  string_eq, if◌then◌else◌,
}
use notmanytask.Base.Errors.{Error, Result, ok, err, panic, new, ◌>>=◌}
use notmanytask.Models.{User, GitlabUser, Session}
use notmanytask.Database.Gorm.{Gorm}
use notmanytask.Database.Errors.{is_not_found, mark_duplicate}

abbrev pub is_set : {A : Type 0} → Option A → Bool
is_set none = false
is_set (some a) = true

-- `column = ?`, which is false for NULL.
abbrev pub is_text : String → Option String → Bool
is_text t none = false
is_text t (some u) = u == t

abbrev pub is_number : ℤ → Option ℤ → Bool
is_number n none = false
is_number n (some k) = eqb_ℤ k n

-- A field of a struct condition counts only if it is not zero.
abbrev or_empty : String → String → Bool
or_empty asked column = if asked == "" then true else column == asked

abbrev same_text : Option String → Option String → Bool
same_text none column = true
same_text (some t) column = is_text t column

abbrev same_number : Option ℤ → Option ℤ → Bool
same_number none column = true
same_number (some n) column = is_number n column

-- The condition that gorm builds from the fields of `user`.
unfoldable pub matches_user : User → User → Bool
matches_user user row =
    (if eqb user.id 0 then true else eqb row.id user.id)
    && same_number user.gitlab_id row.gitlab_id
    && same_text user.gitlab_login row.gitlab_login
    && same_text user.repository row.repository
    && or_empty user.first_name row.first_name
    && or_empty user.last_name row.last_name
    && or_empty user.group_name row.group_name
    && same_number user.telegram_id row.telegram_id
    && (if user.has_retake then row.has_retake else true)

-- No such user is no error.
unfoldable pub or_nobody : Result User → Result (Option User)
unfolding is_not_found
or_nobody (ok u) = ok (some u)
or_nobody (err e) = if is_not_found e then ok none else err e
or_nobody panic = panic

-- `if res.RowsAffected < 1 { return fmt.Errorf("unknown user %d", …) }`
unfoldable pub some_affected : Result ℕ → Result (Unit {0})
some_affected (ok n) = if ltb n 1 then err (new "unknown user") else ok tt
some_affected (err e) = err e
some_affected panic = panic

-- The rows that SetUserGitlabAccount may write, and what it writes.
abbrev pub is_unlinked : ℕ → User → Bool
is_unlinked uid u = eqb u.id uid && (not (is_set u.gitlab_id) || not (is_set u.gitlab_login))

abbrev pub link : GitlabUser → User → User
link account u = record u {
  gitlab_user = record u.gitlab_user {
    gitlab_id = account.gitlab_id;
    gitlab_login = account.gitlab_login;
  };
}

module _ {S : Type 0} ⦃g : Gorm S⦄ where
  unfoldable pub add_user : User → S → Result User × S
  unfolding mark_duplicate matches_user
  add_user user s =
      let (res, s') = g.users.first_or_create (matches_user user) user s in (mark_duplicate res, s')

  unfoldable pub find_user_by_id : ℕ → S → Result User
  find_user_by_id id s = g.users.first (λ u. eqb u.id id) s

  unfoldable pub find_user_by_gitlab_login : String → S → Result User
  find_user_by_gitlab_login login s = g.users.first (λ u. is_text login u.gitlab_login) s

  unfoldable pub find_user_by_gitlab_id : ℤ → S → Result User
  find_user_by_gitlab_id id s = g.users.first (λ u. is_number id u.gitlab_id) s

  unfoldable pub find_user_by_telegram_id : ℤ → S → Result (Option User)
  unfolding or_nobody
  find_user_by_telegram_id id s = or_nobody (g.users.first (λ u. is_number id u.telegram_id) s)

  unfoldable pub list_users_without_repos : S → Result (List User)
  list_users_without_repos s =
      g.users.find (λ u. not (is_set u.repository) && is_set u.gitlab_id && is_set u.gitlab_login) s

  -- The `Order` behind `Find` comes after the query has run.
  unfoldable pub list_group_users : String → S → Result (List User)
  list_group_users group_name s =
      g.users.find (λ u. is_set u.repository && u.group_name == group_name) s

  unfoldable pub set_user_gitlab_account : ℕ → GitlabUser → S → Result (Unit {0}) × S
  unfolding some_affected mark_duplicate
  set_user_gitlab_account uid account s =
      let (res, s') = g.users.update (is_unlinked uid) (link account) s in
      (some_affected (mark_duplicate res), s')

  -- db.Model(user).Update(column, value): one row, by its primary key.
  unfoldable pub update_user : ℕ → (User → User) → S → Result (Unit {0}) × S
  unfolding some_affected
  update_user id assign s =
      let (res, s') = g.users.update (λ u. eqb u.id id) assign s in (some_affected res, s')

  unfoldable pub set_user_repository : User → S → Result (Unit {0}) × S
  unfolding update_user
  set_user_repository user =
      update_user user.id
        (λ u. record u { gitlab_user = record u.gitlab_user { repository = user.repository } })

  unfoldable pub set_user_telegram_id : User → S → Result (Unit {0}) × S
  unfolding update_user
  set_user_telegram_id user = update_user user.id (λ u. record u { telegram_id = user.telegram_id })

  unfoldable pub set_user_group_name : User → S → Result (Unit {0}) × S
  unfolding update_user
  set_user_group_name user = update_user user.id (λ u. record u { group_name = user.group_name })

  -- `token` is the fresh uuid.
  unfoldable pub create_session : String → ℕ → S → Result Session × S
  create_session token user s =
      let session : Session = record { id = 0; token = token; user_id = user } in
      let (res, s') = g.sessions.create session s in ((do _ ← res; ok session), s')

  unfoldable pub find_session : String → S → Result Session
  find_session token s = do
    (session, affected) ← g.sessions.take (λ q. q.token == token) s
    if ltb affected 1 then err (new "unknown session") else ok session

  unfoldable pub find_user_by_session : String → S → Result (User × Session)
  unfolding find_session find_user_by_id
  find_user_by_session token s = do
    session ← find_session token s
    user ← find_user_by_id session.user_id s
    ok (user, session)
