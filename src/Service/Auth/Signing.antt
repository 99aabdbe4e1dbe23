-- ===== src/Service/Auth/Signing.antt =====
-- `AuthService.Login`: who gets a token, and what the others learn.
use secunda_test.Base.{none, true, ◌≡◌, ◌≢◌, ap, subst, inl, inr, arith, Option-cases}
use secunda_test.Text.{Text}
use secunda_test.Errors.{sentinel, not_found, invalid_credential, is_error}
use secunda_test.Errors.Action.{Result, ok, err, Result-cases, Outcome-cases}
use secunda_test.Domain.{User}
use secunda_test.Service.Tokens.{generate}
use secunda_test.Service.Auth.{
  AuthService, RegisterInput, HashMatches, login_email, hide_missing, register, login,
}
use secunda_test.Service.Auth.Registration.{register-stores}

module _ {W : Type 0} (s : AuthService W) where
  -- The address is unknown, or the password is not the one of the user with this address.
  abbrev pub IsWrong : Text → Result User → Type 0
  IsWrong password (ok u) = s.bcrypt.compare u.password_hash password ≢ none
  IsWrong password (err e) = is_error e not_found ≡ true

  -- An unknown address and a wrong password have one and the same outcome, `ErrInvalidCredential` in the
  -- world behind the one query, so the answer does not tell which addresses are registered.
  pub login-uniform :
      (email password : Text) (w w1 : W) (r : Result User)
      → s.users.get_by_email (login_email s email) w ≡ (r, w1)
      → IsWrong password r
      → login s email password w ≡ (err (sentinel invalid_credential), w1)
  unfolding login hide_missing
  login-uniform email password w w1 (err e) found wrong = rw (found, wrong)
  login-uniform email password w w1 (ok u) found wrong =
      elim (Option-cases (s.bcrypt.compare u.password_hash password)) [
        | inl matches ↦ absurd (wrong matches)
        | inr (x, differs) ↦ rw (found, differs)
      ]

  -- What a login that went through has found, compared and signed.
  pub record IsSignedIn (email password : Text) (w w' : W) (token : Text) (u : User) : Type 0 where
    pub found : s.users.get_by_email (login_email s email) w ≡ (ok u, w')
    pub matches : s.bcrypt.compare u.password_hash password ≡ none
    pub signed : generate s.jwt s.tokens (s.now w') u.id ≡ ok token

  IsSignedIn-cast :
      (email password : Text) (w w1 w' : W) (t token : Text) (v u : User)
      → IsSignedIn email password w w1 t v
      → ◌≡◌ {A = Result (Text × User) × W} (ok (t, v), w1) (ok (token, u), w')
      → IsSignedIn email password w w' token u
  IsSignedIn-cast email password w w1 w' t token v u signed_in same =
      let same_token : t ≡ token = ground arith in
      let same_user : v ≡ u = ground arith in
      let same_world : w1 ≡ w' = ground arith in
      subst (λ x. IsSignedIn email password w x token u) same_world
        (subst (λ x. IsSignedIn email password w w1 token x) same_user
          (subst (λ x. IsSignedIn email password w w1 x v) same_token signed_in))

  -- Whoever got a token is the user whom the repository has under the normalised address, gave the password
  -- that the stored hash is of, and got a token that was made for that user's id.
  pub login-accepts :
      (email password : Text) (w w' : W) {token : Text} {u : User}
      → login s email password w ≡ (ok (token, u), w')
      → IsSignedIn email password w w' token u
  unfolding login
  login-accepts email password w w' {token} {u} h =
      elim (Outcome-cases (s.users.get_by_email (login_email s email) w)) [
        | inr (e, w1, missing) ↦ absurd (ground (arith, missing, h))
        | inl (v, w1, found) ↦ elim (Option-cases (s.bcrypt.compare v.password_hash password)) [
          | inr (x, differs) ↦ absurd (ground (arith, found, differs, h))
          | inl matches ↦ elim (Result-cases (generate s.jwt s.tokens (s.now w1) v.id)) [
            | inr (x, unsigned) ↦ absurd (ground (arith, found, matches, unsigned, h))
            | inl (t, signed) ↦
                IsSignedIn-cast email password w w1 w' t token v u
                  (record { found = found; matches = matches; signed = signed })
                  (rw (found, matches, signed) at h)
          ]
        ]
      ]

  -- Whoever has registered can log in with the same address and password, if bcrypt matches its own hashes:
  -- the repository has the user with the stored hash, the token can be signed, and the answer is the token.
  pub login-register :
      (input : RegisterInput) (w w' : W) {u : User} (v : User) (w1 w2 : W) (token : Text)
      → HashMatches s.bcrypt
      → register s input w ≡ (ok u, w')
      → s.users.get_by_email u.email w1 ≡ (ok v, w2)
      → v.password_hash ≡ u.password_hash
      → generate s.jwt s.tokens (s.now w2) v.id ≡ ok token
      → login s input.email input.password w1 ≡ (ok (token, v), w2)
  unfolding login
  login-register input w w' {u} v w1 w2 token matches registered found same signed =
      let enrolled = (register-stores s input w w' registered).1 in
      let email : u.email ≡ login_email s input.email =
        ap (λ (x : User). x.email) enrolled.returned in
      let hash : u.password_hash ≡ enrolled.hash =
        ap (λ (x : User). x.password_hash) enrolled.returned in
      let found' : s.users.get_by_email (login_email s input.email) w1 ≡ (ok v, w2) =
        rw (← email) found in
      let good : s.bcrypt.compare v.password_hash input.password ≡ none =
        rw (same, hash) (matches input.password enrolled.hash w enrolled.w1 enrolled.hashed) in
      rw (found', good, signed)
