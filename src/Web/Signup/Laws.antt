-- ===== src/Web/Signup/Laws.antt =====
-- Who can register with the form of internal/web/login.go.
use notmanytask.Base.{
  String, ◌≡◌, refl, sym, ◌⊎◌, inl, inr, true, List, [], ◌∷◌, ◌==◌, string_eq, In, Bool-cases,
}
use text.Mathlib.TextEquality.{eq_iff}
use notmanytask.Base.Errors.{Result, ok, err, panic}
use notmanytask.Config.{Config, GroupConfig}
use notmanytask.Database.Gorm.{Gorm}
use notmanytask.Web.Session.{Page, signup_page, Visit, clear_session, redirect_to_signup}
use notmanytask.Web.Signup.{is_name, group_by_secret, signup_form}

-- The group that a secret opens has this secret; without such a group the name stays.
group_by_secret-cases :
    (gs : List GroupConfig) (secret name : String)
    → (group_by_secret gs secret name ≡ name)
      ⊎ ((g : GroupConfig) × In g gs
          × (g.secret ≡ secret)
          × (group_by_secret gs secret name ≡ g.name))
unfolding group_by_secret
group_by_secret-cases [] secret name = inl refl
group_by_secret-cases (g ∷ gs) secret name = elim (Bool-cases (secret == g.secret)) [
  | inl e ↦ rw e (elim (group_by_secret-cases gs secret g.name) [
    | inl p ↦ inr (g, inl refl, sym ((eq_iff secret g.secret).0 e), p)
    | inr (h, i, q, p) ↦ inr (h, inr i, q, p)
  ])
  | inr e ↦ rw e (elim (group_by_secret-cases gs secret name) [
    | inl p ↦ inl p
    | inr (h, i, q, p) ↦ inr (h, inr i, q, p)
  ])
]

pub clear_session-db :
    {S : Type 0} ⦃g : Gorm S⦄ (saved : Result (Unit {0})) (v : Visit S)
    → (clear_session saved v).db ≡ v.db
unfolding clear_session
clear_session-db (ok _) v = refl
clear_session-db (err e) v = refl
clear_session-db panic v = refl

module _ {S : Type 0} ⦃g : Gorm S⦄ (conf : Config) (saved : Result (Unit {0})) where
  abbrev pub Rejects : Visit S → Page × Visit S → Type 0
  Rejects v (page, v') = ((msg : String) × (page ≡ signup_page msg)) × (v'.db ≡ v.db)

  rejected : (msg : String) (v : Visit S) → Rejects v (redirect_to_signup saved msg v)
  unfolding redirect_to_signup
  rejected msg v = ((msg, refl), clear_session-db saved v)

  -- The signup form answers with the signup page and leaves the database as it is, unless both names
  -- are of the letters it allows and a group of the configuration has the secret.
  pub signup_form-guards :
      (normalize : String → String) (token first last secret : String) (v : Visit S)
      → Rejects v (signup_form conf saved normalize token first last secret v)
        ⊎ ((is_name first ≡ true)
            × (is_name last ≡ true)
            × ((group : GroupConfig) × In group conf.groups × (group.secret ≡ secret)))
  unfolding signup_form
  signup_form-guards normalize token first last secret v = elim (Bool-cases (is_name first)) [
    | inr e ↦ inl (rw e (rejected _ v))
    | inl e ↦ elim (Bool-cases (is_name last)) [
      | inr e' ↦ inl (rw (e, e') (rejected _ v))
      | inl e' ↦ elim (group_by_secret-cases conf.groups secret "") [
        | inl none' ↦ inl (rw (e, e', none') (rejected _ v))
        | inr (group, i, same, _) ↦ inr (e, e', (group, i, same))
      ]
    ]
  ]
