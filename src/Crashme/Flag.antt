-- ===== src/Crashme/Flag.antt =====
-- The flag that cmd/crashme/main.go fetches from the service, with retries.
use Prim.Native.String.{◌++◌}
use notmanytask.Base.{ℕ, zero, suc, String, Bool, if◌then◌else◌}
use notmanytask.Web.Api.{FlagRequest}
use notmanytask.Base.Errors.{Error, Result, ok, err, panic, new}

pub record FlagFetcher : Type 0 where
  pub url : String
  pub token : String

-- The response of /api/flag.
pub record FlagResponse : Type 0 where
  pub ok : Bool
  pub error : String
  pub flag : String

-- What one try comes to: `permanent` is a backoff.Permanent error, which ends the retries.
pub data Tried : Type 0 where
  got : String → Tried
  permanent : Error → Tried
  temporary : Error → Tried
  crashed : Tried

-- `post` sends a request and reads the body of the answer, which may differ from try to try;
-- `unmarshal` is the decoder of a response. The encoder of a request does not fail.
module _ (post : ℕ → String → FlagRequest → Result String)
    (unmarshal : String → Result FlagResponse) where
  abbrev pub of_response : Result FlagResponse → Tried
  of_response (ok r) = if r.ok then got r.flag else permanent (new ("server error: " ++ r.error))
  of_response (err e) = temporary e
  of_response panic = crashed

  abbrev pub of_body : Result String → Tried
  of_body (ok body) = of_response (unmarshal body)
  of_body (err e) = temporary e
  of_body panic = crashed

  unfoldable pub do_fetch_flag : FlagFetcher → String → ℕ → Tried
  do_fetch_flag f task k = of_body (post k f.url (record { token = f.token; task = task }))

  abbrev pub after_try : Tried → Result String → Result String
  after_try (got flag) later = ok flag
  after_try (permanent e) later = err e
  after_try (temporary e) later = later
  after_try crashed later = panic

  abbrev pub last_try : Tried → Result String
  last_try (got flag) = ok flag
  last_try (permanent e) = err e
  last_try (temporary e) = err e
  last_try crashed = panic

  -- backoff.Retry: `more` tries after this one fit into MaxElapsedTime.
  unfoldable pub fetch_flag : FlagFetcher → String → ℕ → ℕ → Result String
  unfolding do_fetch_flag
  fetch_flag f task k zero = last_try (do_fetch_flag f task k)
  fetch_flag f task k (suc more) =
      after_try (do_fetch_flag f task k) (fetch_flag f task (suc k) more)
