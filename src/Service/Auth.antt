-- ===== src/Service/Auth.antt =====
-- internal/service/auth.go: `AuthService`. The libraries bcrypt and net/mail are parameters.
pub mod Registration
pub mod Signing
pub mod Respect
use secunda_test.Base.{ℕ, Option, none, some, ◌≡◌, ℤ, pos, ltb, if◌then◌else◌}
use secunda_test.Text.{Text, is_empty, trim_space, byte_length}
use secunda_test.Text.Case.{Unicode, to_lower}
use secunda_test.Errors.{
  GoError, sentinel, not_found, invalid_credential, validation, is_error, detailed, within,
}
use secunda_test.Errors.Action.{Action, Result, ok, err, pure, fail, lift, on_error, ◌>>=◌}
use secunda_test.Errors.Outcome
use secunda_test.Domain.{User, zero_time}
use secunda_test.Service.Interfaces.{UserRepository}
use secunda_test.Service.Tokens.{Jwt, TokenManager, generate}

-- `generate` is `GenerateFromPassword` at the default cost, which draws a salt; `compare` is
-- `CompareHashAndPassword`, `none` for a match.
pub record Bcrypt (W : Type 0) : Type 0 where
  pub generate : Text → Action W Text
  pub compare : Text → Text → Option GoError

-- A hash matches the password that it was made from.
abbrev pub HashMatches : {W : Type 0} → Bcrypt W → Type 0
HashMatches {W} b =
    (password hash : Text) (w w' : W)
    → b.generate password w ≡ (ok hash, w')
    → b.compare hash password ≡ none

-- `parse_address` is `mail.ParseAddress`, `none` where it accepts; `now` reads the clock.
pub record AuthService (W : Type 0) : Type 0 where
  pub users : UserRepository W
  pub tokens : TokenManager
  pub jwt : Jwt
  pub bcrypt : Bcrypt W
  pub parse_address : Text → Option GoError
  pub unicode : Unicode
  pub now : W → ℕ

pub record RegisterInput : Type 0 where
  pub email : Text
  pub name : Text
  pub password : Text

abbrev pub min_password : ℕ
min_password = 8

abbrev pub unparsed : Option GoError → Result (Unit {0})
unparsed none = ok tt
unparsed (some e) = err (detailed validation "invalid email")

-- The tests of `Register` behind the one of the address.
abbrev pub check_name : Text → Text → Result (Unit {0})
check_name name password =
    if is_empty name
    then err (detailed validation "name is required")
    else if ltb (byte_length password) min_password
    then err (detailed validation "password must be at least 8 characters")
    else ok tt

-- An unknown address is reported like a wrong password.
unfoldable pub hide_missing : GoError → GoError
hide_missing e = if is_error e not_found then sentinel invalid_credential else e

abbrev pub verified : Option GoError → Result (Unit {0})
verified none = ok tt
verified (some e) = err (sentinel invalid_credential)

module _ {W : Type 0} (s : AuthService W) where
  -- `strings.TrimSpace(strings.ToLower(email))`
  unfoldable pub login_email : Text → Text
  login_email email = trim_space (to_lower s.unicode email)

  unfoldable pub validate_email : Text → Result (Unit {0})
  validate_email email =
      if is_empty email
      then err (detailed validation "email is required")
      else unparsed (s.parse_address email)

  unfoldable pub check : RegisterInput → Result (Unit {0})
  unfolding validate_email
  check input =
      Outcome.◌>>=◌ (validate_email (login_email input.email))
        (λ _. check_name (trim_space input.name) input.password)

  abbrev pub new_user : RegisterInput → Text → User
  new_user input hash = record {
    id = pos 0;
    email = login_email input.email;
    name = trim_space input.name;
    password_hash = hash;
    created_at = zero_time;
  }

  -- The part of `Register` behind its tests.
  unfoldable pub enrol : RegisterInput → Action W User
  enrol input = do
    hash ← on_error (within "hash password") (s.bcrypt.generate input.password)
    id ← s.users.create (new_user input hash)
    pure (record (new_user input hash) { id = id })

  unfoldable pub register : RegisterInput → Action W User
  unfolding check enrol
  register input = lift (check input) >>= λ _. enrol input

  unfoldable pub login : Text → Text → Action W (Text × User)
  login email password = do
    u ← on_error hide_missing (s.users.get_by_email (login_email email))
    _ ← lift (verified (s.bcrypt.compare u.password_hash password))
    token ← on_error (within "generate token") (λ w. (generate s.jwt s.tokens (s.now w) u.id, w))
    pure (token, u)
