-- ===== src/Tests/Accounts.antt =====
-- `AuthService` and `TokenManager` over the repositories and a small database.
use secunda_test.Base.{◌+◌, none, some, [], ◌∷◌, ◌≡◌, refl, pos, arith, ◌<◌, ◌++◌, if◌then◌else◌}
use secunda_test.Text.{Text, codes, text_eq}
use secunda_test.Errors.{sentinel, not_found, invalid_credential, other}
use secunda_test.Errors.Action.{ok, err, pure}
use secunda_test.Domain.{User, zero_time}
use secunda_test.Database.{Db}
use secunda_test.Repository.Users
use secunda_test.Repository.Wired.{user_repository}
use secunda_test.Service.Tokens.{Claims, TokenManager, hmac, key_for, generate, parse}
use secunda_test.Service.Tokens.Laws.{parse-generate, parse-accepts, parse_generated}
use secunda_test.Service.Auth.{
  Bcrypt, HashMatches, AuthService, RegisterInput, login_email, register, login,
}
use secunda_test.Service.Auth.Registration.{IsAcceptable, IsEnrolled, register-stores}
use secunda_test.Service.Auth.Signing.{IsSignedIn, login-uniform, login-accepts, login-register}
use secunda_test.Tests.Fixtures.{ann, bob, eve, rows, db, binary, ascii, running, text_eq_refl}
use secunda_test.Tests.ToyJwt.{toy_jwt, toy_laws}

-- The hash of a password is the password behind a mark.
abbrev toy_bcrypt : Bcrypt Db
toy_bcrypt = record {
  generate = λ password. pure (codes "#" ++ password);
  compare = λ hash password.
      if text_eq hash (codes "#" ++ password) then none else some (other (codes "mismatch"));
}

toy_matches : HashMatches toy_bcrypt
toy_matches password hash w w' h = ground (arith, text_eq_refl (codes "#" ++ password))

abbrev pub manager : TokenManager
manager = record { secret = codes "s3cret"; ttl = 86400000000000 }

abbrev pub auth : AuthService Db
auth = record {
  users = user_repository binary;
  tokens = manager;
  jwt = toy_jwt;
  bcrypt = toy_bcrypt;
  parse_address = λ address. none;
  unicode = ascii;
  now = λ w. 1000000000;
}

abbrev zoe : RegisterInput
zoe = record { email = codes " Zoe@X.org "; name = codes " Zoe"; password = codes "password" }

abbrev zoe_user : User
zoe_user = record {
  id = pos 4;
  email = codes "zoe@x.org";
  name = codes "Zoe";
  password_hash = codes "#password";
  created_at = zero_time;
}

abbrev with_zoe : Db
with_zoe = record db {
  rows = record rows { users = record zoe_user { created_at = pos 100 } ∷ eve ∷ bob ∷ ann ∷ [] };
  counters = record { users = 4; teams = 1; tasks = 1; history = 0 };
}

register-zoe : register auth zoe db ≡ (ok zoe_user, with_zoe)
unfolding register login_email running Users.create
register-zoe = refl

register-stores_example : IsAcceptable auth zoe × IsEnrolled auth zoe db with_zoe zoe_user
register-stores_example = register-stores auth zoe db with_zoe register-zoe

short_password : ¬ (IsAcceptable auth (record zoe { password = codes "1234567" }))
unfolding running
short_password a = absurd (let long = a.long_enough in omega arith)

abbrev pub zoes_token : Text
zoes_token = 4 ∷ 0 ∷ 1000000001 ∷ 86401000000001 ∷ 6 ∷ (codes "s3cret" ++ codes "4")

generate-zoes_token : generate toy_jwt manager 1000000000 (pos 4) ≡ ok zoes_token
unfolding generate running
generate-zoes_token = refl

login-register_example :
    login auth zoe.email zoe.password with_zoe
    ≡ (ok (zoes_token, record zoe_user { created_at = pos 100 }), with_zoe)
unfolding running Users.get_by_email
login-register_example =
    login-register auth zoe db with_zoe (record zoe_user { created_at = pos 100 }) with_zoe with_zoe
      zoes_token toy_matches register-zoe refl refl generate-zoes_token

login-accepts_example :
    IsSignedIn auth zoe.email zoe.password with_zoe with_zoe zoes_token
      (record zoe_user { created_at = pos 100 })
login-accepts_example =
    login-accepts auth zoe.email zoe.password with_zoe with_zoe login-register_example

login-uniform_example :
    login auth (codes "nobody@x.org") (codes "password") db
    ≡ (err (sentinel invalid_credential), db)
unfolding running login_email Users.get_by_email
login-uniform_example =
    login-uniform auth (codes "nobody@x.org") (codes "password") db db (err (sentinel not_found))
      refl refl

parse-generate_example : parse toy_jwt manager 3000000000 zoes_token ≡ ok (pos 4)
parse-generate_example =
    parse-generate toy_jwt toy_laws manager 1000000000 3000000000 (pos 4) zoes_token
      generate-zoes_token (omega arith)

parse-accepts_example :
    (toy_jwt.method_of zoes_token ≡ hmac)
    × (key_for manager.secret (toy_jwt.method_of zoes_token) ≡ ok manager.secret)
    × ((c : Claims) × (toy_jwt.parse 3000000000 (key_for manager.secret) zoes_token ≡ ok c)
        × (c.user_id ≡ pos 4))
parse-accepts_example =
    parse-accepts toy_jwt toy_laws manager 3000000000 zoes_token (pos 4) parse-generate_example

parse_generated_example : (pos 4 ≡ pos 4) × (3000000000 < 1000000000 + manager.ttl)
parse_generated_example =
    parse_generated toy_jwt toy_laws manager 1000000000 3000000000 (pos 4) (pos 4) zoes_token
      generate-zoes_token parse-generate_example
