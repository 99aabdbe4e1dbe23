-- ===== src/Http/Response/Laws.antt =====
-- What a client sees of an error.
use secunda_test.Base.{◌<◌, ◌≡◌, ◌⊎◌, ◌↔◌, true, some, arith}
use secunda_test.Text.{codes}
use secunda_test.Errors.{
  GoError, not_found, conflict, invalid_credential, forbidden, validation, unauthorized,
  email_failed, is_error, message,
}
use secunda_test.Http.Response.{error_body, write_json, error_status, Logger, write_error}

-- The sentinels that the transport knows.
abbrev pub IsKnownError : GoError → Type 0
IsKnownError e =
    (((is_error e validation ≡ true) ⊎ (is_error e invalid_credential ≡ true))
      ⊎ ((is_error e unauthorized ≡ true) ⊎ (is_error e forbidden ≡ true)))
    ⊎ (((is_error e not_found ≡ true) ⊎ (is_error e conflict ≡ true))
        ⊎ (is_error e email_failed ≡ true))

-- An error is answered with 500 exactly when it is none of the known ones.
error_status-eq-500 : (e : GoError) → (error_status e ≡ 500) ↔ ¬ (IsKnownError e)
unfolding error_status
error_status-eq-500 e = ((λ h known. ground arith), (λ h. ground arith))

-- An error that the transport does not know is logged, and its text is not shown: the client gets 500 and
-- the same words whatever has happened.
pub write_error_of_unknown :
    {W : Type 0} (log : GoError → W → W) (e : GoError) (w : W)
    → ¬ (IsKnownError e)
    → write_error (some log) e w
      ≡ (write_json 500 (error_body (codes "internal server error")), log e w)
unfolding write_error
write_error_of_unknown log e w unknown = rw ((error_status-eq-500 e).1 unknown)

error_status-lt-500 : (e : GoError) → IsKnownError e → error_status e < 500
unfolding error_status
error_status-lt-500 e known = ground arith

-- An error that the transport knows is answered with a status below 500 and its own text, and the logger is
-- not called: it may be nil, as it is where the rate limiter finds no user.
pub write_error_of_known :
    {W : Type 0} (log : Logger W) (e : GoError) (w : W)
    → IsKnownError e
    → (error_status e < 500)
      × (write_error log e w ≡ (write_json (error_status e) (error_body (message e)), w))
unfolding write_error
write_error_of_known log e w known =
    let below = error_status-lt-500 e known in (below, ground arith)
