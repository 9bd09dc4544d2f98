-- ===== src/Errors.antt =====
-- `AppError` of apps/server/src/lib/errors.ts: the errors that the modelled code throws, with
-- their HTTP status, and the results of code that may throw.
use relaydock.Prelude.{ℕ, ◌≡◌, refl, Bool, true, false, Option, none, some, arith, ◌⊎◌, inl, inr}
use relaydock.Lifecycle.{JobStatus}

pub data AppError : Type 0 where
  job_transition_invalid : (from to : JobStatus) → AppError
  job_not_found job_not_interactive device_offline : AppError
  validation_in_progress validation_timeout server_shutting_down : AppError
  job_forbidden device_forbidden hello_required hello_invalid : AppError
  device_disconnected agent_credential_invalid : AppError
  authentication_required session_invalid csrf_invalid : AppError
  push_disabled push_endpoint_conflict pairing_code_invalid : AppError
  agent_credential_required device_not_found device_revoked device_not_revoked : AppError
  repository_not_found repository_disabled repository_exists repository_invalid : AppError
  repository_has_history path_not_absolute working_directory_invalid command_too_large : AppError
  action_not_found confirmation_required custom_commands_disabled : AppError
  -- A `ZodError`, which the error handler answers with the code VALIDATION_ERROR.
  validation_error : AppError
  -- An update of a row that is not there (Prisma's P2025).
  record_not_found : AppError
  -- A row whose key or unique column is taken (Prisma's P2002).
  unique_conflict : AppError

-- The status and the code of each; Prisma's errors are no `AppError` and end as a 500.
unfoldable pub status_code : AppError → ℕ
status_code (job_transition_invalid from to) = 409
status_code job_not_found = 404
status_code job_not_interactive = 409
status_code device_offline = 409
status_code validation_in_progress = 409
status_code validation_timeout = 504
status_code server_shutting_down = 503
status_code job_forbidden = 403
status_code device_forbidden = 403
status_code hello_required = 400
status_code hello_invalid = 403
status_code device_disconnected = 409
status_code agent_credential_invalid = 401
status_code authentication_required = 401
status_code session_invalid = 401
status_code csrf_invalid = 403
status_code push_disabled = 404
status_code push_endpoint_conflict = 409
status_code pairing_code_invalid = 400
status_code agent_credential_required = 401
status_code device_not_found = 404
status_code device_revoked = 409
status_code device_not_revoked = 409
status_code repository_not_found = 404
status_code repository_disabled = 409
status_code repository_exists = 409
status_code repository_invalid = 422
status_code repository_has_history = 409
status_code path_not_absolute = 400
status_code working_directory_invalid = 400
status_code command_too_large = 400
status_code action_not_found = 404
status_code confirmation_required = 409
status_code custom_commands_disabled = 403
status_code validation_error = 400
status_code record_not_found = 500
status_code unique_conflict = 500

pub data Result {ℓ} (A : Type ℓ) : Type ℓ where
  ok : A → Result A
  err : AppError → Result A

infixl 5 ◌>>=◌
abbrev pub ◌>>=◌ {ℓ κ} : {B : Type κ} {A : Type ℓ} → Result A → (A → Result B) → Result B
err thrown >>= next = err thrown
ok given >>= next = next given

abbrev pub or_fail {ℓ} : {A : Type ℓ} → Option A → AppError → Result A
or_fail none e = err e
or_fail (some a) e = ok a

-- `if (!condition) throw e`
abbrev pub require : Bool → AppError → Result (Unit {0})
require false thrown = err thrown
require true thrown = ok tt

-- What the parts of a chain that succeeds have done.
pub >>=-eq-ok {ℓ κ} :
    {B : Type κ} {A : Type ℓ} (first : Result A) (next : A → Result B) {last : B}
    → (first >>= next) ≡ ok last
    → (given : A) × (first ≡ ok given) × (next given ≡ ok last)
>>=-eq-ok (err thrown) next e = absurd cc
>>=-eq-ok (ok given) next e = (given, refl, e)

pub or_fail-eq-ok {ℓ} :
    {A : Type ℓ} (o : Option A) (e : AppError) {a : A} → or_fail o e ≡ ok a → o ≡ some a
or_fail-eq-ok none e h = absurd cc
or_fail-eq-ok (some a) e h = ground arith

pub require-eq-ok : (b : Bool) (e : AppError) {u : Unit {0}} → require b e ≡ ok u → b ≡ true
require-eq-ok true e h = refl
require-eq-ok false e h = absurd cc

-- Either a value or an error.
pub Result-cases :
    {A : Type 0} (r : Result A) → ((a : A) × (r ≡ ok a)) ⊎ ((e : AppError) × (r ≡ err e))
Result-cases (ok a) = inl (a, refl)
Result-cases (err e) = inr (e, refl)
