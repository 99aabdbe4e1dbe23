-- ===== src/Service/Tokens/Laws.antt =====
-- Tokens from `Generate`, read by `Parse` until they expire, and what `Parse` accepts at all.
use secunda_test.Base.{ℕ, ◌+◌, ◌<◌, ◌≤◌, ◌≡◌, refl, ap, ◌∙◌, ℤ, arith, inl, inr}
use secunda_test.Text.{Text}
use secunda_test.Errors.Action.{ok, Result-cases}
use secunda_test.Service.Tokens.{
  Claims, Method, hmac, unexpected, Jwt, JwtLaws, TokenManager, key_for, user_of, claims_for,
  generate, parse,
}

keyed_hmac :
    (secret : Text) (method : Method) (key : Text) → key_for secret method ≡ ok key → method ≡ hmac
unfolding key_for
keyed_hmac secret hmac key h = refl
keyed_hmac secret (unexpected alg) key h = absurd (ground arith)

key_for_hmac : (secret : Text) → key_for secret hmac ≡ ok secret
unfolding key_for
key_for_hmac secret = refl

module _ (jwt : Jwt) (laws : JwtLaws jwt) (m : TokenManager) where
  -- A token that was made for a user at `now` gives back that user at every instant up to a second
  -- before its time to live is over.
  pub parse-generate :
      (now later : ℕ) (user : ℤ) (token : Text)
      → generate jwt m now user ≡ ok token
      → later + 1000000000 ≤ now + m.ttl
      → parse jwt m later token ≡ ok user
  unfolding generate parse key_for claims_for
  parse-generate now later user token made early = ap user_of (
      laws.read_back m.secret (claims_for jwt m now user) token later
        (jwt.numeric_date (now + m.ttl)) (key_for m.secret) made refl refl
        (omega (arith, laws.date_close (now + m.ttl))))

  -- Whatever token `Parse` accepts was signed by an HMAC method and checked with the manager's secret, and the
  -- returned user is the one in its claims: a token with another `alg` is never accepted.
  pub parse-accepts :
      (now : ℕ) (token : Text) (user : ℤ)
      → parse jwt m now token ≡ ok user
      → (jwt.method_of token ≡ hmac)
        × (key_for m.secret (jwt.method_of token) ≡ ok m.secret)
        × ((c : Claims) × (jwt.parse now (key_for m.secret) token ≡ ok c) × (c.user_id ≡ user))
  unfolding parse
  parse-accepts now token user accepted =
      elim (Result-cases (jwt.parse now (key_for m.secret) token)) [
        | inr (e, bad) ↦ absurd (ground (arith, bad))
        | inl (c, good) ↦
            let (secret, keyed) = laws.keyed token c now (key_for m.secret) good in
            let method = keyed_hmac m.secret (jwt.method_of token) secret keyed in
            (
              method,
              ap (key_for m.secret) method ∙ key_for_hmac m.secret,
              (c, good, ground (arith, good)),
            )
      ]

  -- Where `Parse` accepts a token that the manager has made itself, it returns the user that the token was made
  -- for, and the token's time to live is not over.
  pub parse_generated :
      (now later : ℕ) (user found : ℤ) (token : Text)
      → generate jwt m now user ≡ ok token
      → parse jwt m later token ≡ ok found
      → (found ≡ user) × (later < now + m.ttl)
  unfolding generate parse claims_for
  parse_generated now later user found token made accepted =
      elim (Result-cases (jwt.parse later (key_for m.secret) token)) [
        | inr (e, bad) ↦ absurd (ground (arith, bad))
        | inl (c, good) ↦
            let own =
              laws.own_claims m.secret (claims_for jwt m now user) c token later (key_for m.secret)
                made good in
            let early =
              laws.not_expired token c later (jwt.numeric_date (now + m.ttl)) (key_for m.secret)
                good (ap (λ (d : Claims). d.expires_at) own) in
            (
              ground (arith, good, ap (λ (d : Claims). d.user_id) own),
              omega (arith, early, laws.date_le (now + m.ttl)),
            )
      ]
