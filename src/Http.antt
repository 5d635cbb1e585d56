-- ===== src/Http.antt =====
-- What a request passes on its way to a handler, and what an error becomes on its way out: the guards
-- of apps/api/src/common (jwt-auth.guard.ts, csrf.guard.ts, rate-limit.guard.ts), the
-- Idempotency-Key parameter, AccountStatusService and global-exception.filter.ts.
pub mod Guarded
mod Tests
use pstu_final.Base.{
  ℕ, String, Bool, true, false, ◌&&◌, ◌||◌, not, Option, none, some, List, [], ◌∷◌, find_where,
  str_eq, ltb, leb, ◌==◌, if◌then◌else◌,
}
use pstu_final.Base.Text.{codes, matches_uuid_pattern}
use pstu_final.Store.Failure.{
  Failure, ErrorCode, app, known, coded, plain, validation_error, unauthenticated, forbidden,
  not_found, rate_limited, internal_error, service_unavailable,
}
use pstu_final.Store.Rows.{User, UserStatus, AuditAction, Value}
use pstu_final.Store.Tx.{Db, Tx, pure, throw, throw_if, or_throw, gets, ◌>>=◌, ◌>>◌}
use pstu_final.Platform.{Platform, Env, Draw}
use pstu_final.Audit.{record_detached}
use pstu_final.Auth.Service.{is_active, status_text}

-- A value that JavaScript takes for false counts as missing.
abbrev pub given_text : Option String → Option String
given_text none = none
given_text (some text) = if str_eq text "" then none else some text

abbrev pub unauthenticated_failure : Failure
unauthenticated_failure = app 401 unauthenticated

abbrev pub inactive_failure : Failure
inactive_failure = app 403 forbidden

-- AccountStatusService
abbrev status_in : Option User → Option UserStatus
status_in none = none
status_in (some user) = some user.status

unfoldable pub find_status : ℕ → Tx (Option UserStatus)
find_status user_id = gets (λ s. status_in (find_where (λ (u : User). u.id == user_id) s.users))

-- `jwt_verify` reads the subject of a token that the configured secret signed and that has not
-- expired.
module _ (jwt_verify : String → Option ℕ) (e : Env) (path : String) where
  unfoldable pub refuse_inactive : ℕ → UserStatus → Tx (Unit {0})
  refuse_inactive user_id status = if is_active status then pure tt else (do
    record_detached e Draw.guard_audit (record {
      actor_user_id = some user_id;
      action = AuditAction.account_blocked;
      resource_type = "user";
      resource_id = some user_id;
      metadata = ("status", Value.text (status_text status)) ∷ ("path", Value.text path) ∷ [];
    })
    throw inactive_failure)

  -- JwtAuthGuard: the id of the user that it puts on the request.
  unfoldable pub jwt_guard : Option String → Tx ℕ
  unfolding find_status refuse_inactive
  jwt_guard cookie = do
    token ← or_throw (given_text cookie) unauthenticated_failure
    user_id ← or_throw (jwt_verify token) unauthenticated_failure
    found ← find_status user_id
    status ← or_throw found unauthenticated_failure
    refuse_inactive user_id status
    pure user_id

  -- A handler behind the guard.
  unfoldable pub guarded : {A : Type 0} → (ℕ → Tx A) → Option String → Tx A
  unfolding jwt_guard
  guarded handler cookie = jwt_guard cookie >>= handler

-- CsrfGuard
abbrev same_token : Option String → Option String → Bool
same_token (some cookie) (some header) = str_eq cookie header
same_token a b = false

unfoldable pub csrf_guard : Option String → Option String → Tx (Unit {0})
csrf_guard cookie header =
    throw_if (not (same_token (given_text cookie) (given_text header))) (app 403 forbidden)

-- The parameter of a handler that moves money.
abbrev trimmed : Platform → Option String → Option String
trimmed p none = none
trimmed p (some header) = some (p.trim header)

unfoldable pub idempotency_key : Platform → Option String → Tx String
idempotency_key p header = do
  raw ← or_throw (given_text (trimmed p header)) (app 400 validation_error)
  throw_if (not (matches_uuid_pattern (codes raw))) (app 400 validation_error)
  pure raw

-- RateLimitGuard: the limit of the handler, if it has one, and the count that Redis gives, if it
-- answers.
unfoldable pub rate_limit_guard : Option ℕ → Option ℕ → Tx (Unit {0})
rate_limit_guard none count = pure tt
rate_limit_guard (some limit) none = pure tt
rate_limit_guard (some limit) (some count) = throw_if (ltb limit count) (app 429 rate_limited)

-- GlobalExceptionFilter
pub data Exception : Type 0 where
  -- what the services throw
  service : Failure → Exception
  -- an HttpException that is no AppException
  http : ℕ → Exception
  -- an error of a middleware, with its `status` and `statusCode`
  middleware : Option ℕ → Option ℕ → Exception

pub record ResolvedError : Type 0 where
  pub status : ℕ
  pub code : ErrorCode

unfoldable pub map_status_to_error_code : ℕ → ErrorCode
map_status_to_error_code status =
    if status == 400 || status == 413 || status == 415
    then validation_error
    else if status == 401
    then unauthenticated
    else if status == 403
    then forbidden
    else if status == 404
    then not_found
    else if status == 429
    then rate_limited
    else if status == 503
    then service_unavailable
    else internal_error

abbrev unexpected : ResolvedError
unexpected = record { status = 500; code = internal_error }

unfoldable pub client_error_status : Option ℕ → Option ℕ → Option ℕ
client_error_status (some status) status_code =
    if leb 400 status && ltb status 500 then some status else none
client_error_status none (some status) =
    if leb 400 status && ltb status 500 then some status else none
client_error_status none none = none

abbrev of_middleware : Option ℕ → ResolvedError
of_middleware none = unexpected
of_middleware (some status) = record { status = status; code = map_status_to_error_code status }

unfoldable pub resolve_exception : Exception → ResolvedError
unfolding map_status_to_error_code client_error_status
resolve_exception (service (app status code)) = record { status = status; code = code }
resolve_exception (service (known code meta target)) = unexpected
resolve_exception (service (coded code)) = unexpected
resolve_exception (service (plain message)) = unexpected
resolve_exception (http status) = record { status = status; code = map_status_to_error_code status }
resolve_exception (middleware status status_code) =
    of_middleware (client_error_status status status_code)
