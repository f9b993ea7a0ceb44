-- ===== src/Base/Errors.antt =====
-- Go's error values, and what a call comes to: a value, an error, or a run-time panic.
use Prim.Native.String.{String, ◌++◌}
use mathlib.Core.Path.{◌≡◌, refl}
use mathlib.Core.Option.{Option, none, some}

-- `not_found` is gorm.ErrRecordNotFound, `pg_error` a *pgconn.PgError with its code, `gitlab_error` a
-- *gitlab.ErrorResponse with its message, `external` any other error of a library; `wrap` is errors.Wrap or a `%w`, `duplicate_key` is database.DuplicateKey.
pub data Error : Type 0 where
  new : String → Error
  wrap : String → Error → Error
  duplicate_key : Error → Error
  not_found : Error
  pg_error : String → Error
  gitlab_error : String → Error
  external : String → Error

pub data Result {ℓ} (A : Type ℓ) : Type ℓ where
  ok : A → Result A
  err : Error → Result A
  panic : Result A

infixl 5 ◌>>=◌
abbrev pub ◌>>=◌ {ℓ κ} : {A : Type ℓ} {B : Type κ} → Result A → (A → Result B) → Result B
ok a >>= f = f a
err e >>= f = err e
panic >>= f = panic

-- `if err != nil { return nil, errors.Wrap(err, msg) }`
abbrev pub wrapped {ℓ} : {A : Type ℓ} → String → Result A → Result A
wrapped msg (ok a) = ok a
wrapped msg (err e) = err (wrap msg e)
wrapped msg panic = panic

-- `*p`
abbrev pub deref {ℓ} : {A : Type ℓ} → Option A → Result A
deref none = panic
deref (some a) = ok a

-- The text of `err.Error()`.
unfoldable pub error_text : Error → String
error_text (new msg) = msg
error_text (wrap msg e) = msg ++ (": " ++ error_text e)
error_text (duplicate_key e) = error_text e
error_text not_found = "record not found"
error_text (pg_error code) = code
error_text (gitlab_error message) = message
error_text (external msg) = msg

-- A chain that succeeds has succeeded at each step.
pub bind-ok {ℓ κ} :
    {A : Type ℓ} {B : Type κ} (m : Result A) (k : A → Result B) (b : B)
    → (m >>= k) ≡ ok b
    → (a : A) × (m ≡ ok a) × (k a ≡ ok b)
bind-ok (ok a) k b e = (a, refl, e)
bind-ok (err x) k b e = absurd (cc)
bind-ok panic k b e = absurd (cc)

pub wrapped-ok {ℓ} :
    {A : Type ℓ} (msg : String) (m : Result A) (a : A) → wrapped msg m ≡ ok a → m ≡ ok a
wrapped-ok msg (ok b) a e = e
wrapped-ok msg (err x) a e = absurd (cc)
wrapped-ok msg panic a e = absurd (cc)

pub deref-ok {ℓ} : {A : Type ℓ} (o : Option A) (a : A) → deref o ≡ ok a → o ≡ some a
deref-ok none a e = absurd (cc)
deref-ok (some b) a e = cc

pub ok_inj {ℓ} : {A : Type ℓ} (a b : A) → ok a ≡ ok b → a ≡ b
ok_inj a b e = cc
