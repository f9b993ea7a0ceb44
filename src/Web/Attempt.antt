-- ===== src/Web/Attempt.antt =====
-- How a handler runs: it changes the world, and stops at the first error that it reports.
use notmanytask.Base.{ℕ, String, Bool, true, false, Option, none, some}
use notmanytask.Base.Errors.{Error, Result, ok, err, panic, error_text}

-- `failed` is a call of onError with its code, `crashed` a panic that gin recovers from.
pub data Attempt (A : Type 0) : Type 0 where
  done : A → Attempt A
  failed : ℕ → Error → Attempt A
  crashed : Attempt A

abbrev pub Handler : Type 0 → Type 0 → Type 0
Handler S A = S → Attempt A × S

module _ {S A : Type 0} where
  abbrev pub pure : A → Handler S A
  pure a s = (done a, s)

  -- `if err != nil { onError(code, err); return }`
  abbrev pub attempt : ℕ → Result A → Handler S A
  attempt code (ok a) s = (done a, s)
  attempt code (err e) s = (failed code e, s)
  attempt code panic s = (crashed, s)

  abbrev pub gets : (S → A) → Handler S A
  gets f s = (done (f s), s)

module _ {S : Type 0} where
  abbrev pub require : Bool → ℕ → Error → Handler S (Unit {0})
  require true code e s = (done tt, s)
  require false code e s = (failed code e, s)

  abbrev pub modify : (S → S) → Handler S (Unit {0})
  modify f s = (done tt, f s)

infixl 5 ◌>>=◌ ◌>>◌
abbrev pub ◌>>=◌ : {S A B : Type 0} → Handler S A → (A → Handler S B) → Handler S B
◌>>=◌ m f s =
    let (r, s') = m s in
    elim r [ done a ↦ f a s' | failed code e ↦ (failed code e, s') | crashed ↦ (crashed, s') ]

abbrev pub ◌>>◌ : {S A B : Type 0} → Handler S A → Handler S B → Handler S B
m >> k = m >>= λ _. k

-- The JSON of a response: api.Status, and what else the response holds.
pub record Reply (A : Type 0) : Type 0 where
  pub code : ℕ
  pub ok : Bool
  pub error : String
  pub payload : Option A

abbrev pub reply_of : {A : Type 0} → Attempt A → Reply A
reply_of (done a) = record { code = 200; ok = true; error = ""; payload = some a }
reply_of (failed code e) = record { code = code; ok = false; error = error_text e; payload = none }
reply_of crashed = record { code = 500; ok = false; error = ""; payload = none }

abbrev pub answer : {S A : Type 0} → Handler S A → S → Reply A × S
answer m s = let (r, s') = m s in (reply_of r, s')
