-- ===== src/Errors.antt =====
-- Go errors as the program makes and tests them: internal/domain/errors.go, the sentinels of the
-- other packages that the code asks for, and the wrapping by `fmt.Errorf` with `%w`.
pub mod Action
pub mod Outcome
pub mod Respect
use Prim.Native.String.{String}
use secunda_test.Base.{ℕ, ◌≡◌, refl, Bool, false, ◌++◌, [], ◌==◌}
use secunda_test.Text.{Text, codes}

-- The errors that are compared by identity.
pub data Sentinel : Type 0 where
  not_found conflict invalid_credential forbidden validation unauthorized : Sentinel
  email_failed service_unavailable : Sentinel
  no_rows redis_nil open_state too_many_requests : Sentinel

abbrev tag : Sentinel → ℕ
tag not_found = 0
tag conflict = 1
tag invalid_credential = 2
tag forbidden = 3
tag validation = 4
tag unauthorized = 5
tag email_failed = 6
tag service_unavailable = 7
tag no_rows = 8
tag redis_nil = 9
tag open_state = 10
tag too_many_requests = 11

abbrev pub same_sentinel : Sentinel → Sentinel → Bool
same_sentinel s t = tag s == tag t

-- `wrapped before e after` is `fmt.Errorf("…%w…", e)`; `mysql` is a `*mysql.MySQLError` with its number;
-- `field_error` is the transport's own type; `other` is any error that the code takes no part of.
pub data GoError : Type 0 where
  sentinel : Sentinel → GoError
  wrapped : Text → GoError → Text → GoError
  mysql : ℕ → Text → GoError
  field_error : Text → GoError
  other : Text → GoError

-- The texts of `errors.New`.
unfoldable pub sentinel_message : Sentinel → Text
sentinel_message not_found = codes "resource not found"
sentinel_message conflict = codes "resource already exists"
sentinel_message invalid_credential = codes "invalid email or password"
sentinel_message forbidden = codes "operation not permitted"
sentinel_message validation = codes "validation failed"
sentinel_message unauthorized = codes "unauthorized"
sentinel_message email_failed = codes "invite saved but email delivery failed"
sentinel_message service_unavailable = codes "email service unavailable"
sentinel_message no_rows = codes "sql: no rows in result set"
sentinel_message redis_nil = codes "redis: nil"
sentinel_message open_state = codes "circuit breaker is open"
sentinel_message too_many_requests = codes "too many requests"

-- `err.Error()`.
unfoldable pub message : GoError → Text
unfolding sentinel_message
message (sentinel s) = sentinel_message s
message (wrapped before e after) = before ++ message e ++ after
message (mysql n m) = m
message (field_error m) = codes "validation failed: " ++ m
message (other m) = m

-- `errors.Is(err, target)`.
unfoldable pub is_error : GoError → Sentinel → Bool
is_error (sentinel s) t = same_sentinel s t
is_error (wrapped before e after) t = is_error e t
is_error (mysql n m) t = false
is_error (field_error m) t = same_sentinel validation t
is_error (other m) t = false

-- `fmt.Errorf("%w: detail", err)`.
unfoldable pub detailed : Sentinel → String → GoError
detailed s detail = wrapped [] (sentinel s) (codes ": " ++ codes detail)

-- `fmt.Errorf("doing: %w", err)`.
unfoldable pub within : String → GoError → GoError
within doing e = wrapped (codes doing ++ codes ": ") e []

pub is_error-detailed :
    (s : Sentinel) (detail : String) (t : Sentinel)
    → is_error (detailed s detail) t ≡ same_sentinel s t
unfolding detailed is_error
is_error-detailed s detail t = refl

pub is_error-within :
    (doing : String) (e : GoError) (t : Sentinel) → is_error (within doing e) t ≡ is_error e t
unfolding within is_error
is_error-within doing e t = refl

message-detailed :
    message (detailed validation "title is required") ≡ codes "validation failed: title is required"
unfolding message detailed
message-detailed = refl
