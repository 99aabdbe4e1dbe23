-- ===== src/Service/Tokens.antt =====
-- internal/service/jwt.go: `TokenManager`. The library golang-jwt is a parameter: signing, and parsing with
-- the key function that the code hands it. Instants are nanoseconds since the Unix epoch.
pub mod Laws
use secunda_test.Base.{ℕ, ◌+◌, ◌<◌, ◌≤◌, ◌≡◌, Option, some, ◌++◌, ℤ}
use secunda_test.Text.{Text, codes}
use secunda_test.Text.Decimal.{format_int}
use secunda_test.Errors.{GoError, other}
use secunda_test.Errors.Action.{Result, ok, err}

-- `Claims`: the user, and the registered claims that the code sets. In a token that was made elsewhere the
-- dates may be missing.
pub record Claims : Type 0 where
  pub user_id : ℤ
  pub issued_at : Option ℕ
  pub expires_at : Option ℕ
  pub subject : Text

-- A token's signing method, as the key function sees it: HMAC, or another with its `alg` header.
pub data Method : Type 0 where
  hmac : Method
  unexpected : Text → Method

-- `numeric_date` is `jwt.NewNumericDate`, which cuts to whole seconds; `sign` is `NewWithClaims` with HS256
-- and `SignedString`; `parse` is `ParseWithClaims` at an instant, with a key function.
pub record Jwt : Type 0 where
  pub numeric_date : ℕ → ℕ
  pub sign : Text → Claims → Result Text
  pub method_of : Text → Method
  pub parse : ℕ → (Method → Result Text) → Text → Result Claims

-- What the library documents of a parser: it checks the signature with the key that it is handed, and
-- the expiry where there is one; a token that it signed itself reads back until it expires.
pub record JwtLaws (jwt : Jwt) : Type 0 where
  pub date_le : (t : ℕ) → jwt.numeric_date t ≤ t
  pub date_close : (t : ℕ) → t < jwt.numeric_date t + 1000000000
  pub read_back :
      (secret : Text) (c : Claims) (token : Text) (now end : ℕ) (key : Method → Result Text)
      → jwt.sign secret c ≡ ok token
      → key hmac ≡ ok secret
      → c.expires_at ≡ some end
      → now < end
      → jwt.parse now key token ≡ ok c
  pub own_claims :
      (secret : Text) (c d : Claims) (token : Text) (now : ℕ) (key : Method → Result Text)
      → jwt.sign secret c ≡ ok token
      → jwt.parse now key token ≡ ok d
      → d ≡ c
  pub not_expired :
      (token : Text) (c : Claims) (now end : ℕ) (key : Method → Result Text)
      → jwt.parse now key token ≡ ok c
      → c.expires_at ≡ some end
      → now < end
  pub keyed :
      (token : Text) (c : Claims) (now : ℕ) (key : Method → Result Text)
      → jwt.parse now key token ≡ ok c
      → (secret : Text) × (key (jwt.method_of token) ≡ ok secret)

pub record TokenManager : Type 0 where
  pub secret : Text
  pub ttl : ℕ

-- The key function of `Parse`: the secret for HMAC, an error for every other method.
unfoldable pub key_for : Text → Method → Result Text
key_for secret hmac = ok secret
key_for secret (unexpected alg) = err (other (codes "unexpected signing method: " ++ alg))

abbrev pub user_of : Result Claims → Result ℤ
user_of (ok c) = ok c.user_id
user_of (err e) = err e

module _ (jwt : Jwt) (m : TokenManager) where
  unfoldable pub claims_for : ℕ → ℤ → Claims
  claims_for now user_id = record {
    user_id = user_id;
    issued_at = some (jwt.numeric_date now);
    expires_at = some (jwt.numeric_date (now + m.ttl));
    subject = format_int user_id;
  }

  unfoldable pub generate : ℕ → ℤ → Result Text
  unfolding claims_for
  generate now user_id = jwt.sign m.secret (claims_for now user_id)

  unfoldable pub parse : ℕ → Text → Result ℤ
  unfolding key_for
  parse now token = user_of (jwt.parse now (key_for m.secret) token)
