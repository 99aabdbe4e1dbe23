-- ===== src/Http/Middleware.antt =====
-- internal/transport/http/middleware.go. The rate limiter of golang.org/x/time/rate and the counters of
-- Prometheus are parameters or plain numbers; instants are nanoseconds.
pub mod Gate
pub mod Limits
use secunda_test.Base.{
  ℕ, ◌≡◌, refl, Bool, true, false, not, Option, none, some, List, [], ◌∷◌, take, drop, suc, ◌+◌, ℤ,
  pos, ◌==ℤ◌, leb_ℤ, leb, if◌then◌else◌,
}
use secunda_test.Text.{Text, codes, index_byte}
use secunda_test.Text.Case.{equal_fold}
use secunda_test.Errors.{sentinel, unauthorized}
use secunda_test.Errors.Action.{Result, ok, err}
use secunda_test.Service.Tokens.{Jwt, TokenManager, parse}
use secunda_test.Http.Response.{
  error_body, Response, Reply, respond, panicked, write_json, write_error,
}
use secunda_test.Http.Requests.{Request}

-- An `http.Handler`.
abbrev pub Serve : Type 0 → Type 0
Serve W = Request → W → Reply × W

-- `strings.SplitN(header, " ", 2)` with two parts: what stands before and behind the first space.
unfoldable pub split_header : Text → Option (Text × Text)
split_header header = elim (index_byte header b' ') [
  | none ↦ none
  | some i ↦ some (take i header, drop (suc i) header)
]

-- The bearer token of a header, if it is well formed.
abbrev pub bearer : Option (Text × Text) → Option Text
bearer none = none
bearer (some (scheme, token)) = if equal_fold scheme (codes "Bearer") then some token else none

unfoldable pub token_of : Text → Option Text
unfolding split_header index_byte equal_fold
token_of header = bearer (split_header header)

module _ {W : Type 0} (jwt : Jwt) (tokens : TokenManager) (now : W → ℕ) where
  abbrev pub admit : Serve W → Request → Result ℤ → W → Reply × W
  admit next r (ok user) w = next (record r { user = some user }) w
  admit next r (err e) w = (write_json 401 (error_body (codes "invalid or expired token")), w)

  abbrev pub check_token : Serve W → Request → Option Text → W → Reply × W
  check_token next r none w =
      (write_json 401 (error_body (codes "missing or malformed Authorization header")), w)
  check_token next r (some token) w = admit next r (parse jwt tokens (now w) token) w

  -- `Auth`
  unfoldable pub auth : Serve W → Serve W
  unfolding token_of
  auth next r w = check_token next r (token_of r.authorization) w

-- `rate.Limiter`: made full, and asked for one event at an instant.
pub record Limiters : Type 1 where
  pub Limiter : Type 0
  pub new_limiter : ℤ → Limiter
  pub allow : ℕ → Limiter → Bool × Limiter

-- `newUserLimiters`: the burst, which is also the number of events in a minute.
unfoldable pub burst_of : ℤ → ℤ
burst_of per_minute = if leb_ℤ per_minute (pos 0) then pos 100 else per_minute

module _ (l : Limiters) where
  open l use {Limiter, new_limiter, allow}

  -- The map `limiters`: the users seen so far.
  abbrev pub Buckets : Type 0
  Buckets = List (ℤ × Limiter)

  unfoldable pub bucket : ℤ → ℤ → Buckets → Limiter
  bucket burst user [] = new_limiter burst
  bucket burst user ((u, b) ∷ bs) = if u ==ℤ user then b else bucket burst user bs

  -- The map with the user's limiter as it is behind the event.
  unfoldable pub put_bucket : ℤ → Limiter → Buckets → Buckets
  put_bucket user b [] = (user, b) ∷ []
  put_bucket user b ((u, c) ∷ bs) =
      if u ==ℤ user then (u, b) ∷ bs else (u, c) ∷ put_bucket user b bs

  -- `limiters.get(userID).Allow()`: one event of this user.
  unfoldable pub take_event : ℤ → ℕ → ℤ → Buckets → Bool × Buckets
  unfolding bucket put_bucket burst_of
  take_event per_minute instant user bs =
      let (allowed, b) = allow instant (bucket (burst_of per_minute) user bs) in
      (allowed, put_bucket user b bs)

  -- The state behind the limiters is kept beside the world of the handlers.
  module _ {W : Type 0} (per_minute : ℤ) (now : W → ℕ) where
    abbrev pub too_many : Reply
    too_many = respond (record {
      status = 429;
      payload = error_body (codes "rate limit exceeded");
      retry_after = some 60;
    })

    -- A handler that knows nothing of the limiters.
    abbrev pub beside : {S : Type 0} → Serve W → Serve (W × S)
    beside next r (w, s) = let (reply, w1) = next r w in (reply, (w1, s))

    abbrev pub go_on : Serve W → Request → W → Bool × Buckets → Reply × (W × Buckets)
    go_on next r w (true, bs) = beside next r (w, bs)
    go_on next r w (false, bs) = (too_many, (w, bs))

    abbrev pub for_user : Serve W → Request → Option ℤ → W × Buckets → Reply × (W × Buckets)
    for_user next r none s = write_error none (sentinel unauthorized) s
    for_user next r (some user) (w, bs) = go_on next r w (take_event per_minute (now w) user bs)

    -- `RateLimit`
    unfoldable pub rate_limit : Serve W → Serve (W × Buckets)
    unfolding take_event write_error
    rate_limit next r w = for_user next r r.user w
