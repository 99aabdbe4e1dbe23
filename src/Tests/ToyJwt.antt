-- ===== src/Tests/ToyJwt.antt =====
-- A stand-in for the token library that meets what is assumed of it: a token is the claims with the
-- secret written beside them. It protects nothing, and serves to run the code.
use secunda_test.Base.{
  Option, none, some, Bool, true, subst, ℕ, zero, suc, ◌<◌, ◌≡◌, refl, ◌&&◌, ◌∷◌, ◌++◌, ℤ, pos,
  negsuc, pos_part, neg_part, arith, if◌then◌else◌, ltb, length, take, drop, take-append_left,
  drop-append_left,
}
use secunda_test.Text.{Text, codes, text_eq}
use secunda_test.Errors.{GoError, other}
use secunda_test.Errors.Action.{Result, ok, err}
use secunda_test.Service.Tokens.{Claims, Method, hmac, Jwt, JwtLaws}
use secunda_test.Tests.Fixtures.{text_eq_refl}

abbrev int_of : ℕ → ℕ → ℤ
int_of p zero = pos p
int_of p (suc n) = negsuc n

int_of-parts : (z : ℤ) → int_of (pos_part z) (neg_part z) ≡ z
int_of-parts (pos n) = refl
int_of-parts (negsuc n) = refl

abbrev code_of : Option ℕ → ℕ
code_of none = zero
code_of (some n) = suc n

abbrev option_of : ℕ → Option ℕ
option_of zero = none
option_of (suc n) = some n

option_of-code_of : (o : Option ℕ) → option_of (code_of o) ≡ o
option_of-code_of none = refl
option_of-code_of (some n) = refl

abbrev ahead : ℕ → Option ℕ → Bool
ahead now none = true
ahead now (some d) = ltb now d

abbrev encode : Text → Claims → Text
encode secret c =
    pos_part c.user_id
    ∷ neg_part c.user_id
    ∷ code_of c.issued_at
    ∷ code_of c.expires_at
    ∷ length secret
    ∷ (secret ++ c.subject)

abbrev refusal : GoError
refusal = other (codes "token is invalid")

abbrev decode : ℕ → Result Text → Text → Result Claims
decode now (ok secret) (p ∷ n ∷ issued ∷ expires ∷ k ∷ rest) =
    if text_eq (take k rest) secret && ahead now (option_of expires)
    then ok (record {
      user_id = int_of p n;
      issued_at = option_of issued;
      expires_at = option_of expires;
      subject = drop k rest;
    })
    else err refusal
decode _ _ _ = err refusal

abbrev pub toy_jwt : Jwt
toy_jwt = record {
  numeric_date = λ t. t;
  sign = λ secret c. ok (encode secret c);
  method_of = λ token. hmac;
  parse = λ now key token. decode now (key hmac) token;
}

decode-encode :
    (now : ℕ) (secret other_secret : Text) (c : Claims)
    → decode now (ok other_secret) (encode secret c)
      ≡ (if text_eq secret other_secret && ahead now c.expires_at then ok c else err refusal)
decode-encode now secret other_secret c = rw (
  take-append_left secret c.subject,
  drop-append_left secret c.subject,
  int_of-parts c.user_id,
  option_of-code_of c.issued_at,
  option_of-code_of c.expires_at,
)

toy_own_claims :
    (secret : Text) (c d : Claims) (token : Text) (now : ℕ) (key : Method → Result Text)
    → toy_jwt.sign secret c ≡ ok token
    → toy_jwt.parse now key token ≡ ok d
    → d ≡ c
toy_own_claims secret c d token now key made read = own (key hmac) (rw same read)
  where
    same : encode secret c ≡ token
    same = ground arith

    own : (r : Result Text) → decode now r (encode secret c) ≡ ok d → d ≡ c
    own (ok other_secret) h = ground (arith, h, decode-encode now secret other_secret c)
    own (err e) h = absurd (ground (arith, h))

toy_read_back :
    (secret : Text) (c : Claims) (token : Text) (now end : ℕ) (key : Method → Result Text)
    → toy_jwt.sign secret c ≡ ok token
    → key hmac ≡ ok secret
    → c.expires_at ≡ some end
    → now < end
    → toy_jwt.parse now key token ≡ ok c
toy_read_back secret c token now end key made keyed ends early =
    let same : encode secret c ≡ token = ground arith in
    rw (← same, keyed, decode-encode now secret secret c)
      (ground (arith, text_eq_refl secret, ends))

toy_not_expired :
    (token : Text) (c : Claims) (now : ℕ) (r : Result Text)
    → decode now r token ≡ ok c
    → (ahead now c.expires_at ≡ true) × ((secret : Text) × (r ≡ ok secret))
toy_not_expired (p ∷ n ∷ issued ∷ expires ∷ k ∷ rest) c now (ok secret) h =
    (ground arith, (secret, refl))
toy_not_expired _ c now r h = absurd (ground arith)

pub toy_laws : JwtLaws toy_jwt
toy_laws = record {
  date_le = λ t. omega arith;
  date_close = λ t. omega arith;
  read_back = toy_read_back;
  own_claims = toy_own_claims;
  not_expired = λ token c now end key h ends.
      let early =
        subst (λ o. ahead now o ≡ true) ends (toy_not_expired token c now (key hmac) h).0 in
      ground arith;
  keyed = λ token c now key h. (toy_not_expired token c now (key hmac) h).1;
}
