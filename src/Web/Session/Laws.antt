-- ===== src/Web/Session/Laws.antt =====
-- Whom the middleware of internal/web/login.go lets through.
use notmanytask.Base.{
  String, ◌≡◌, ◌≢◌, refl, ap, ◌∙◌, ◌↔◌, inl, inr, Bool, true, Option, none, some, arith, ◌==◌,
  string_eq, Bool-cases, sym, subst,
}
use text.Mathlib.TextEquality.{eq_iff}
use notmanytask.Base.Errors.{Result, ok, err, panic}
use notmanytask.Config.{Config}
use notmanytask.Models.{User, Session}
use notmanytask.Database.Gorm.{Gorm}
use notmanytask.Database.Users.{is_set, find_user_by_session}
use notmanytask.Web.Session.{
  Cookie, proceed, token_of, try_get_token, try_find_user_by_token, found_pair, find_by, admit,
  access_of, validate_session,
}

-- What a user needs to go on, whoever they are.
pub record MayProceed (conf : Config) (verify_telegram : Bool) (u : User) : Type 0 where
  pub has_id : is_set u.gitlab_id ≡ true
  pub has_login : is_set u.gitlab_login ≡ true
  pub has_telegram :
      verify_telegram ≡ true → is_set conf.telegram ≡ true → is_set u.telegram_id ≡ true

admit-proceed :
    (conf : Config) (verify : Bool) (u u' : User) (q q' : Session)
    → admit conf verify u q ≡ proceed u' q'
    → (u ≡ u') × (q ≡ q') × MayProceed conf verify u
unfolding admit
admit-proceed conf verify u u' q q' e = (
  ground arith,
  ground arith,
  record { has_id = ground arith; has_login = ground arith; has_telegram = λ v t. ground arith },
)

admit-MayProceed :
    (conf : Config) (verify : Bool) (u : User) (q : Session)
    → MayProceed conf verify u
    → admit conf verify u q ≡ proceed u q
unfolding admit
admit-MayProceed conf verify u q h = ground (arith, h.has_id, h.has_login, h.has_telegram)

token_of-some : (o : Option String) (t : String) → token_of o ≡ some t → (o ≡ some t) × (t ≢ "")
token_of-some none t e = absurd (cc)
token_of-some (some u) t e = elim (Bool-cases (u == "")) [
  | inl empty ↦ absurd (cc (rw empty at e))
  | inr full ↦
      let same : u ≡ t = cc (rw full at e) in
      (ap some same, λ z. cc (full, (eq_iff u "").1 (same ∙ z)))
]

token_of-full : (t : String) → t ≢ "" → token_of (some t) ≡ some t
token_of-full t full = elim (Bool-cases (t == "")) [
  | inl e ↦ absurd (full ((eq_iff t "").0 e))
  | inr e ↦ rw e
]

try_get_token-token_of : (c : Cookie) → try_get_token c ≡ token_of c.token
unfolding try_get_token
try_get_token-token_of c = refl

access_of-proceed :
    (conf : Config) (verify : Bool) (r : Result (Option (User × Session))) (u : User) (q : Session)
    → access_of conf verify r ≡ proceed u q
    → (r ≡ ok (some (u, q))) × MayProceed conf verify u
access_of-proceed conf verify (ok none) u q e = absurd (cc)
access_of-proceed conf verify (err x) u q e = absurd (cc)
access_of-proceed conf verify panic u q e = absurd (cc)
access_of-proceed conf verify (ok (some (u', q'))) u q e =
    let (p, p', may) = admit-proceed conf verify u' u q' q e in
    (rw (p, p') refl, subst (MayProceed conf verify) p may)

module _ {S : Type 0} ⦃g : Gorm S⦄ (conf : Config) (verify_telegram : Bool) where
  find_by-ok :
      (o : Option String) (s : S) (u : User) (q : Session)
      → find_by o s ≡ ok (some (u, q))
      → (t : String) × (o ≡ some t) × (find_user_by_session t s ≡ ok (u, q))
  find_by-ok none s u q e = absurd (cc)
  find_by-ok (some t) s u q e = (t, refl, found (find_user_by_session t s) e)
    where
      found : (r : Result (User × Session)) → found_pair r ≡ ok (some (u, q)) → r ≡ ok (u, q)
      found (ok p) h = cc
      found (err x) h = absurd (cc)
      found panic h = absurd (cc)

  -- The middleware lets a request go on as a user with a session exactly if the cookie has a token
  -- that is not empty, the database finds this session and user for it, the user has a GitLab id
  -- and login, and, where Telegram is asked for and configured, a Telegram account.
  pub validate_session-proceed :
      (c : Cookie) (s : S) (u : User) (q : Session)
      → (validate_session conf verify_telegram c s ≡ proceed u q) ↔ (
          (t : String) × (c.token ≡ some t)
          × (t ≢ "")
          × (find_user_by_session t s ≡ ok (u, q))
          × MayProceed conf verify_telegram u)
  unfolding validate_session
  validate_session-proceed c s u q = (
    λ e.
        let (found, may) =
          access_of-proceed conf verify_telegram (try_find_user_by_token c s) u q e in
        let (t, has, session) = find_by-ok (try_get_token c) s u q found in
        let (has', full) = token_of-some c.token t (sym (try_get_token-token_of c) ∙ has) in
        (t, has', full, session, may),
    λ (t, has, full, session, may).
        ap (λ o. access_of conf verify_telegram (find_by o s))
          (try_get_token-token_of c ∙ ap token_of has ∙ token_of-full t full)
        ∙ ap (λ r. access_of conf verify_telegram (found_pair r)) session
        ∙ admit-MayProceed conf verify_telegram u q may,
  )
