-- ===== src/Base/Keys.antt =====
-- Comparable keys, and Go's maps as association lists over them.
use Prim.Native.String.{String}
use mathlib.Core.Path.{◌≡◌, refl, sym}
use mathlib.Core.Logic.{◌↔◌, inl, inr}
use mathlib.Core.Bool.{Bool, true}
use mathlib.Core.List.{List, [], ◌∷◌}
use mathlib.Core.Option.{Option, none, some}
use native.Mathlib.Omega.{arith}
use text.Mathlib.Text.{◌==◌ as str_eq}
use text.Mathlib.TextEquality.{eq_iff}
use notmanytask.Base.Tests.{Bool-cases, if◌then◌else◌}

pub record Eq {ℓ} (A : Type ℓ) : Type ℓ where
  pub beq : A → A → Bool
  pub beq_iff : (x y : A) → (beq x y ≡ true) ↔ (x ≡ y)

infix 50 ◌==◌
abbrev pub ◌==◌ {ℓ} : {A : Type ℓ} ⦃e : Eq A⦄ → A → A → Bool
◌==◌ ⦃e⦄ = e.beq

instance abbrev pub string_eq : Eq String
string_eq = record { beq = str_eq; beq_iff = eq_iff }

-- A Go map: a key stands at most once, since `insert` overwrites the entry of its key.
abbrev pub Dict {ℓ κ} : Type ℓ → Type κ → Type (ℓ ⊔ κ)
Dict K V = List (K × V)

module _ {ℓ κ} {K : Type ℓ} {V : Type κ} ⦃e : Eq K⦄ where
  unfoldable pub lookup : K → Dict K V → Option V
  lookup k [] = none
  lookup k ((j, v) ∷ m) = if e.beq j k then some v else lookup k m

  unfoldable pub insert : K → V → Dict K V → Dict K V
  insert k v [] = (k, v) ∷ []
  insert k v ((j, w) ∷ m) = if e.beq j k then (k, v) ∷ m else (j, w) ∷ insert k v m

  pub lookup-insert :
      (k j : K) (v : V) (m : Dict K V)
      → lookup j (insert k v m) ≡ (if e.beq k j then some v else lookup j m)
  unfolding lookup insert
  lookup-insert k j v [] = refl
  lookup-insert k j v ((i, w) ∷ m) =
      ground (arith, e.beq_iff k j, e.beq_iff i k, e.beq_iff i j, lookup-insert k j v m)

  pub lookup-cons :
      (k j : K) (v : V) (m : Dict K V)
      → lookup j ((k, v) ∷ m) ≡ (if e.beq k j then some v else lookup j m)
  unfolding lookup
  lookup-cons k j v m = refl

  pub lookup-nil : (k : K) → lookup k [] ≡ none
  unfolding lookup
  lookup-nil k = refl

  -- A key that stands once in each entry.
  abbrev pub NoRepeat : Dict K V → Type κ
  NoRepeat [] = Unit
  NoRepeat ((k, v) ∷ m) = (lookup k m ≡ none) × NoRepeat m

  pub insert-NoRepeat : (k : K) (v : V) (m : Dict K V) → NoRepeat m → NoRepeat (insert k v m)
  unfolding insert lookup
  insert-NoRepeat k v [] h = (refl, tt)
  insert-NoRepeat k v ((j, w) ∷ m) (fresh, h) = elim (Bool-cases (e.beq j k)) [
    | inl same ↦ rw same (rw (sym ((e.beq_iff j k).0 same)) fresh, h)
    | inr other ↦
        rw other
          (rw lookup-insert (ground (arith, e.beq_iff j k, e.beq_iff k j)), insert-NoRepeat k v m h)
  ]
