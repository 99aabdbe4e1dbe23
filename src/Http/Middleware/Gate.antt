-- ===== src/Http/Middleware/Gate.antt =====
-- Who gets past `Auth` and `RateLimit`.
use secunda_test.Base.{
  Bool-cases, take-append_left, ℕ, suc, ◌≡◌, ◌↔◌, refl, true, Option, none, some, ◌∷◌, ◌++◌, ℤ, ap,
  arith, take, drop, inl, inr, Option-cases, ◌∙◌,
}
use secunda_test.Text.{Text, codes, index_byte}
use secunda_test.Text.Case.{equal_fold}
use secunda_test.Text.Index.{Lacks, index_byte-first, index_byte-some, drop-past}
use secunda_test.Errors.Action.{ok, Result-cases}
use secunda_test.Service.Tokens.{Jwt, TokenManager, parse}
use secunda_test.Http.Response.{error_body, write_json}
use secunda_test.Http.Requests.{Request}
use secunda_test.Http.Middleware.{Serve, split_header, token_of, check_token, auth}

module _ {W : Type 0} (jwt : Jwt) (tokens : TokenManager) (now : W → ℕ) where
  -- A request whose bearer token `Parse` reads as this user's.
  abbrev pub IsAccepted : Request → W → ℤ → Type 0
  IsAccepted r w user =
      (token : Text) × (token_of r.authorization ≡ some token)
      × (parse jwt tokens (now w) token ≡ ok user)

  -- A request with an accepted token reaches the handlers behind `Auth` with its user in the context.
  pub auth-admits :
      (next : Serve W) (r : Request) (w : W) (user : ℤ)
      → IsAccepted r w user
      → auth jwt tokens now next r w ≡ next (record r { user = some user }) w
  unfolding auth
  auth-admits next r w user (token, given, accepted) = rw (given, accepted)

  check_token-refuses :
      (next : Serve W) (r : Request) (w : W) (o : Option Text)
      → token_of r.authorization ≡ o
      → ((user : ℤ) → ¬ (IsAccepted r w user))
      → (message : Text) × (check_token jwt tokens now next r o w
          ≡ (write_json 401 (error_body message), w))
  check_token-refuses next r w none given refused = (_, refl)
  check_token-refuses next r w (some token) given refused =
      elim (Result-cases (parse jwt tokens (now w) token)) [
        | inl (user, accepted) ↦ absurd (refused user (token, given, accepted))
        | inr (e, rejected) ↦ (codes "invalid or expired token", rw rejected)
      ]

  -- A request without an accepted token is answered with 401 by `Auth` itself: nothing behind it runs, so
  -- the world is as it was.
  pub auth-refuses :
      (next : Serve W) (r : Request) (w : W)
      → ((user : ℤ) → ¬ (IsAccepted r w user))
      → (message : Text) × (auth jwt tokens now next r w ≡ (write_json 401 (error_body message), w))
  unfolding auth
  auth-refuses next r w refused =
      check_token-refuses next r w (token_of r.authorization) refl refused

-- The header's token, written out: a scheme that is "Bearer" in any case, one space, and all the rest.
abbrev pub IsBearer : Text → Text → Type 0
IsBearer header token =
    (scheme : Text) × Lacks b' ' scheme
    × (equal_fold scheme (codes "Bearer") ≡ true)
    × (header ≡ scheme ++ b' ' ∷ token)

token_of-some : (header token : Text) → token_of header ≡ some token → IsBearer header token
unfolding token_of split_header
token_of-some header token h = elim (Option-cases (index_byte header b' ')) [
  | inl missing ↦ absurd (ground (arith, h, missing))
  | inr (i, found) ↦
      let (split, lacks) = index_byte-some b' ' header found in
      elim (Bool-cases (equal_fold (take i header) (codes "Bearer"))) [
        | inl same ↦
            let rest : drop (suc i) header ≡ token = ground (arith, h, found, same) in
            (take i header, lacks, same, split ∙ ap (λ v. take i header ++ b' ' ∷ v) rest)
        | inr differ ↦ absurd (ground (arith, h, found, differ))
      ]
]

token_of-bearer :
    (scheme token : Text)
    → Lacks b' ' scheme
    → equal_fold scheme (codes "Bearer") ≡ true
    → token_of (scheme ++ b' ' ∷ token) ≡ some token
unfolding token_of split_header
token_of-bearer scheme token lacks same = rw (
  split_header,
  index_byte-first b' ' scheme token lacks,
  take-append_left scheme (b' ' ∷ token),
  drop-past scheme 32 token,
  same,
)

-- `Auth` reads a token exactly from the headers of this form, and reads the whole of it.
pub token_of_iff : (header token : Text) → (token_of header ≡ some token) ↔ IsBearer header token
token_of_iff header token = (
  token_of-some header token,
  λ (scheme, lacks, same, form). ap token_of form ∙ token_of-bearer scheme token lacks same,
)
