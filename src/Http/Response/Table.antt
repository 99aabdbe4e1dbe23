-- ===== src/Http/Response/Table.antt =====
-- The status of each sentinel.
use secunda_test.Base.{◌<◌, ◌∙◌, ℕ, ◌≡◌, refl, true, arith}
use secunda_test.Errors.{
  GoError, sentinel, wrapped, mysql, field_error, other, Sentinel, not_found, conflict,
  invalid_credential, forbidden, validation, unauthorized, email_failed, service_unavailable,
  no_rows, redis_nil, open_state, too_many_requests, is_error, same_sentinel, message,
}
use secunda_test.Http.Response.{error_body, write_json, error_status, Logger, write_error}

-- The documented table of internal/domain/errors.go and `ErrEmailFailed`, without an order.
abbrev pub sentinel_status : Sentinel → ℕ
sentinel_status validation = 400
sentinel_status invalid_credential = 401
sentinel_status unauthorized = 401
sentinel_status forbidden = 403
sentinel_status not_found = 404
sentinel_status conflict = 409
sentinel_status email_failed = 202
sentinel_status service_unavailable = 500
sentinel_status no_rows = 500
sentinel_status redis_nil = 500
sentinel_status open_state = 500
sentinel_status too_many_requests = 500

-- An error wraps one sentinel at most.
pub is_error_unique :
    (e : GoError) (s t : Sentinel) → is_error e s ≡ true → is_error e t ≡ same_sentinel s t
unfolding is_error
is_error_unique (sentinel u) s t h = ground arith
is_error_unique (wrapped before e after) s t h = is_error_unique e s t h
is_error_unique (mysql n m) s t h = absurd (ground arith)
is_error_unique (field_error m) s t h = ground arith
is_error_unique (other m) s t h = absurd (ground arith)

same_status :
    (e : GoError) (s : Sentinel) → is_error e s ≡ true → error_status e ≡ error_status (sentinel s)
unfolding error_status is_error
same_status e s h = rw (
  is_error_unique e s validation h,
  is_error_unique e s invalid_credential h,
  is_error_unique e s unauthorized h,
  is_error_unique e s forbidden h,
  is_error_unique e s not_found h,
  is_error_unique e s conflict h,
  is_error_unique e s email_failed h,
)

status_of_sentinel : (s : Sentinel) → error_status (sentinel s) ≡ sentinel_status s
unfolding error_status is_error
status_of_sentinel validation = refl
status_of_sentinel invalid_credential = refl
status_of_sentinel unauthorized = refl
status_of_sentinel forbidden = refl
status_of_sentinel not_found = refl
status_of_sentinel conflict = refl
status_of_sentinel email_failed = refl
status_of_sentinel service_unavailable = refl
status_of_sentinel no_rows = refl
status_of_sentinel redis_nil = refl
status_of_sentinel open_state = refl
status_of_sentinel too_many_requests = refl

-- An error that wraps a sentinel, however deep, has the sentinel's status, in whatever order the switch
-- asks for them.
pub error_status-sentinel_status :
    (e : GoError) (s : Sentinel) → is_error e s ≡ true → error_status e ≡ sentinel_status s
error_status-sentinel_status e s h = same_status e s h ∙ status_of_sentinel s

-- The answer to such an error, where the status is below 500: the status with the error's own text.
pub write_error-sentinel_status :
    {W : Type 0} (log : Logger W) (e : GoError) (s : Sentinel) (w : W)
    → is_error e s ≡ true
    → sentinel_status s < 500
    → write_error log e w ≡ (write_json (sentinel_status s) (error_body (message e)), w)
unfolding write_error
write_error-sentinel_status log e s w h below =
    let status = error_status-sentinel_status e s h in ground arith
