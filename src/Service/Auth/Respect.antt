-- ===== src/Service/Auth/Respect.antt =====
-- `AuthService` respects what its repository and its hashing respect.
use secunda_test.Base.{ℤ}
use secunda_test.Text.{Text}
use secunda_test.Errors.{within}
use secunda_test.Errors.Action.{Action, pure, lift, on_error, ◌>>=◌}
use secunda_test.Errors.Respect.{
  Order, Respects, pure-Respects, lift-Respects, on_error-Respects, bind-Respects,
}
use secunda_test.Domain.{User}
use secunda_test.Service.Tokens.{generate}
use secunda_test.Service.Auth.{
  AuthService, RegisterInput, hide_missing, verified, login_email, check, new_user, enrol, register,
  login,
}

module _ {W : Type 0} (o : Order W) where
  pub record IsRespectful (s : AuthService W) : Type 0 where
    pub create : (u : User) → Respects o (s.users.create u)
    pub get_by_email : (email : Text) → Respects o (s.users.get_by_email email)
    pub generate : (password : Text) → Respects o (s.bcrypt.generate password)

  module _ (s : AuthService W) (r : IsRespectful s) where
    enrol-Respects : (input : RegisterInput) → Respects o (enrol s input)
    unfolding enrol
    enrol-Respects input =
        let stored : Text → ℤ → Action W User =
          λ hash id. pure (record (new_user s input hash) { id = id }) in
        bind-Respects o (λ hash. s.users.create (new_user s input hash) >>= stored hash)
          (λ hash.
            bind-Respects o (stored hash)
              (λ id. pure-Respects o (record (new_user s input hash) { id = id }))
              (s.users.create (new_user s input hash)) (r.create (new_user s input hash)))
          (on_error (within "hash password") (s.bcrypt.generate input.password))
          (on_error-Respects o (within "hash password") (s.bcrypt.generate input.password)
            (r.generate input.password))

    pub register-Respects : (input : RegisterInput) → Respects o (register s input)
    unfolding register
    register-Respects input =
        bind-Respects o (λ _. enrol s input) (λ _. enrol-Respects input) (lift (check s input))
          (lift-Respects o (check s input))

    pub login-Respects : (email password : Text) → Respects o (login s email password)
    unfolding login
    login-Respects email password =
        let token : User → Action W Text = λ u.
          on_error (within "generate token") (λ w. (generate s.jwt s.tokens (s.now w) u.id, w)) in
        let answer : User → Text → Action W (Text × User) = λ u t. pure (t, u) in
        bind-Respects o
          (λ u. lift (verified (s.bcrypt.compare u.password_hash password)) >>= λ _.
            token u >>= answer u)
          (λ u.
            bind-Respects o (λ _. token u >>= answer u)
              (λ _.
                bind-Respects o (answer u) (λ t. pure-Respects o {A = Text × User} (t, u)) (token u)
                  (on_error-Respects o (within "generate token")
                    (λ w. (generate s.jwt s.tokens (s.now w) u.id, w)) (λ w. o.same w)))
              (lift (verified (s.bcrypt.compare u.password_hash password)))
              (lift-Respects o (verified (s.bcrypt.compare u.password_hash password))))
          (on_error hide_missing (s.users.get_by_email (login_email s email)))
          (on_error-Respects o hide_missing (s.users.get_by_email (login_email s email))
            (r.get_by_email (login_email s email)))
