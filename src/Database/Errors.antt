-- ===== src/Database/Errors.antt =====
-- The error tests of internal/database/database.go.
use notmanytask.Base.{Bool, true, false, ◌==◌, string_eq, if◌then◌else◌}
use notmanytask.Base.Errors.{
  Error, Result, ok, err, panic, wrap, duplicate_key, not_found, pg_error,
}

-- errors.As walks down the chain of wrapped errors.
unfoldable pub is_duplicate_key : Error → Bool
is_duplicate_key (wrap msg e) = is_duplicate_key e
is_duplicate_key (duplicate_key e) = true
is_duplicate_key _ = false

-- A type assertion looks at the error itself.
unfoldable pub is_unique_violation : Error → Bool
is_unique_violation (pg_error code) = code == "23505"
is_unique_violation _ = false

-- errors.Is(err, gorm.ErrRecordNotFound); DuplicateKey unwraps too.
unfoldable pub is_not_found : Error → Bool
is_not_found (wrap msg e) = is_not_found e
is_not_found (duplicate_key e) = is_not_found e
is_not_found not_found = true
is_not_found _ = false

-- `if isUnqiueViolation(err) { return &DuplicateKey{err} }`
unfoldable pub mark_duplicate : {A : Type 0} → Result A → Result A
unfolding is_unique_violation
mark_duplicate (ok a) = ok a
mark_duplicate (err e) = if is_unique_violation e then err (duplicate_key e) else err e
mark_duplicate panic = panic
