-- ===== src/Pkg/Conf/Settings.antt =====
-- Which settings the environment can give.
use notmanytask.Base.{
  String, ◌≡◌, refl, ap, sym, ◌∙◌, ◌⊎◌, ◌↔◌, inl, inr, List, [], ◌∷◌, ◌++◌, In, In-append,
  In-append_left, In-append_right,
}
use mathlib.Core.List.{append_assoc}
use notmanytask.Base.Errors.{Result, ok}
use notmanytask.Pkg.Conf.{
  Value, Fields, plain, pointer, struct, end, field, key, dotted, bind_fields, bind_field,
  bind_envs,
}

-- The path of a setting: from struct to struct by the keys of their fields, to a field that is no
-- struct.
abbrev mutual
  pub IsSetting : Fields → List String → Type 0
  IsSetting end path = ⊥
  IsSetting (field name tag v rest) path = EndsIn v (key name tag) path ⊎ IsSetting rest path

  pub EndsIn : Value → String → List String → Type 0
  EndsIn plain k path = path ≡ k ∷ []
  EndsIn (pointer v) k path = path ≡ k ∷ []
  EndsIn (struct fs) k path = (rest : List String) × (path ≡ k ∷ rest) × IsSetting fs rest

-- A list of names is that of the settings below `parts` that P tells.
abbrev Names : List String → (List String → Type 0) → List String → Type 0
Names parts P names =
    (name : String)
    → In name names ↔ ((path : List String) × (name ≡ dotted (parts ++ path)) × P path)

module _ (bind : String → Result (Unit {0})) (binds : (name : String) → bind name ≡ ok tt) where
  one-Names :
      (parts : List String) (k : String)
      → Names parts (λ path. path ≡ k ∷ []) (dotted (parts ++ (k ∷ [])) ∷ [])
  one-Names parts k name = (
    λ i. elim i [ inl e ↦ (k ∷ [], e, refl) | inr no_more ↦ absurd no_more ],
    λ (path, e, q). inl (e ∙ ap (λ p. dotted (parts ++ p)) q),
  )

  struct-Names :
      (parts : List String) (k : String) (fs : Fields) (names : List String)
      → Names (parts ++ (k ∷ [])) (IsSetting fs) names
      → Names parts (EndsIn (struct fs) k) names
  struct-Names parts k fs names h name = (
    λ i.
        let (path, e, s) = (h name).0 i in
        (k ∷ path, e ∙ ap dotted (append_assoc parts (k ∷ []) path), (path, refl, s)),
    λ (path, e, (rest, q, s)). (h name).1 (
      rest,
      e ∙ ap (λ p. dotted (parts ++ p)) q ∙ sym (ap dotted (append_assoc parts (k ∷ []) rest)),
      s,
    ),
  )

  append-Names :
      (parts : List String) (P Q : List String → Type 0) (xs ys : List String)
      → Names parts P xs
      → Names parts Q ys
      → Names parts (λ path. P path ⊎ Q path) (xs ++ ys)
  append-Names parts P Q xs ys hx hy name = (
    λ i. elim (In-append name xs ys i) [
      | inl j ↦ let (path, e, s) = (hx name).0 j in (path, e, inl s)
      | inr j ↦ let (path, e, s) = (hy name).0 j in (path, e, inr s)
    ],
    λ (path, e, s). elim s [
      | inl a ↦ In-append_left name xs ys ((hx name).1 (path, e, a))
      | inr a ↦ In-append_right name xs ys ((hy name).1 (path, e, a))
    ],
  )

  mutual
    unfolding bind_fields bind_field

    bind_fields-Names :
        (fs : Fields) (parts : List String)
        → (names : List String) × (bind_fields bind fs parts ≡ ok names)
          × Names parts (IsSetting fs) names
    bind_fields-Names end parts = ([], refl, λ name. (λ i. absurd i, λ (path, e, s). absurd s))
    bind_fields-Names (field name tag v rest) parts =
        let (here, e, h) = bind_field-Names v parts (key name tag) in
        let (later, e', h') = bind_fields-Names rest parts in
        (
          here ++ later,
          rw (e, e') refl,
          append-Names parts (EndsIn v (key name tag)) (IsSetting rest) here later h h',
        )

    bind_field-Names :
        (v : Value) (parts : List String) (k : String)
        → (names : List String) × (bind_field bind v (parts ++ (k ∷ [])) ≡ ok names)
          × Names parts (EndsIn v k) names
    bind_field-Names plain parts k = (
      dotted (parts ++ (k ∷ [])) ∷ [],
      rw (binds (dotted (parts ++ (k ∷ [])))) refl,
      one-Names parts k,
    )
    bind_field-Names (pointer v) parts k = (
      dotted (parts ++ (k ∷ [])) ∷ [],
      rw (binds (dotted (parts ++ (k ∷ [])))) refl,
      one-Names parts k,
    )
    bind_field-Names (struct fs) parts k =
        let (names, e, h) = bind_fields-Names fs (parts ++ (k ∷ [])) in
        (names, e, struct-Names parts k fs names h)

  -- If viper takes every name, bindEnvs of a pointer to a struct does not panic and binds the dotted
  -- paths of the settings, all of them and nothing else: a setting's path goes from struct to struct by
  -- the keys of their fields, and ends at a field that is no struct. A field that is a pointer to a
  -- struct is such an end, so none of the names within it is bound.
  pub bind_envs-settings :
      (fs : Fields)
      → (names : List String) × (bind_envs bind (pointer (struct fs)) [] ≡ ok names)
        × ((name : String)
            → In name names ↔ ((path : List String) × (name ≡ dotted path) × IsSetting fs path))
  unfolding bind_envs
  bind_envs-settings fs = bind_fields-Names fs []
