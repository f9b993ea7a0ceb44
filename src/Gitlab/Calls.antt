-- ===== src/Gitlab/Calls.antt =====
-- A chain of requests to GitLab and the database: it changes the world `S`, and stops at the first
-- error. `none` says that the fuel of a loop in the chain ran out.
use notmanytask.Base.{◌≡◌, ◌≢◌, refl, String, Option, none, some}
use notmanytask.Base.Errors.{Error, Result, ok, err, panic, wrapped, deref}

abbrev pub Calls : Type 0 → Type 0 → Type 0
Calls S A = S → Option (Result A × S)

module _ {S A : Type 0} where
  abbrev pub pure : A → Calls S A
  pure a s = some (ok a, s)

  abbrev pub fail : Error → Calls S A
  fail e s = some (err e, s)

  abbrev pub crash : Calls S A
  crash s = some (panic, s)

  -- A request that changes the world.
  abbrev pub call : (S → Result A × S) → Calls S A
  call f s = some (f s)

  abbrev pub wrapped_call : String → Result A × S → Option (Result A × S)
  wrapped_call msg (r, s) = some (wrapped msg r, s)

  -- `if err != nil { return errors.Wrap(err, msg) }`
  abbrev pub wrapping : String → (S → Result A × S) → Calls S A
  wrapping msg f s = wrapped_call msg (f s)

  abbrev pub follow : Option A → Calls S A
  follow o s = some (deref o, s)

infixl 5 ◌>>=◌ ◌>>◌
abbrev pub then_call :
    {S A B : Type 0} → Option (Result A × S) → (A → Calls S B) → Option (Result B × S)
then_call none f = none
then_call (some (ok a, s)) f = f a s
then_call (some (err e, s)) f = some (err e, s)
then_call (some (panic, s)) f = some (panic, s)

abbrev pub ◌>>=◌ : {S A B : Type 0} → Calls S A → (A → Calls S B) → Calls S B
◌>>=◌ m f s = then_call (m s) f

abbrev pub ◌>>◌ : {S A B : Type 0} → Calls S A → Calls S B → Calls S B
m >> k = m >>= λ _. k

pub wrapped_call-ok :
    {S A : Type 0} (msg : String) (r : Result A × S) (a : A) (s' : S)
    → wrapped_call msg r ≡ some (ok a, s')
    → r ≡ (ok a, s')
wrapped_call-ok msg (ok b, s) a s' e = cc
wrapped_call-ok msg (err x, s) a s' e = absurd (cc)
wrapped_call-ok msg (panic, s) a s' e = absurd (cc)

-- A chain that succeeds has succeeded at each step.
pub then_call-ok :
    {S A B : Type 0} (o : Option (Result A × S)) (f : A → Calls S B) (b : B) (s' : S)
    → then_call o f ≡ some (ok b, s')
    → (a : A) × (s : S) × (o ≡ some (ok a, s)) × (f a s ≡ some (ok b, s'))
then_call-ok none f b s' e = absurd (cc)
then_call-ok (some (ok a, s)) f b s' e = (a, s, refl, e)
then_call-ok (some (err x, s)) f b s' e = absurd (cc)
then_call-ok (some (panic, s)) f b s' e = absurd (cc)

-- A chain ends where each of its steps does.
pub then_call-ends :
    {S A B : Type 0} (o : Option (Result A × S)) (f : A → Calls S B)
    → o ≢ none
    → ((a : A) (s : S) → f a s ≢ none)
    → then_call o f ≢ none
then_call-ends none f h k e = h refl
then_call-ends (some (ok a, s)) f h k e = k a s e
then_call-ends (some (err x, s)) f h k e = absurd (cc)
then_call-ends (some (panic, s)) f h k e = absurd (cc)
