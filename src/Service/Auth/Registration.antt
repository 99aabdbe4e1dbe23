-- ===== src/Service/Auth/Registration.antt =====
-- `AuthService.Register`: which requests are accepted, and what is stored for them.
use secunda_test.Base.{true, false, none, ◌≡◌, ◌≤◌, subst, sym, ◌∙◌, ℤ, inl, inr, arith}
use secunda_test.Text.{Text, is_empty, trim_space, byte_length}
use secunda_test.Text.Trim.{trim_space_idem}
use secunda_test.Text.Case.{to_lower_idem, trim_space-to_lower}
use secunda_test.Errors.{GoError, validation, is_error, is_error-detailed, within}
use secunda_test.Errors.Action.{
  Result, ok, err, Result-cases, map_error, after-eq-ok, map_error-eq-ok,
}
use secunda_test.Domain.{User}
use secunda_test.Service.Team.{invite_email}
use secunda_test.Service.Auth.{
  AuthService, RegisterInput, min_password, login_email, check, new_user, enrol, register,
}

module _ {W : Type 0} (s : AuthService W) where
  -- What a registration needs: an address that the parser accepts, a name that is not blank, and a
  -- password of eight bytes.
  pub record IsAcceptable (input : RegisterInput) : Type 0 where
    pub has_address : is_empty (login_email s input.email) ≡ false
    pub parses : s.parse_address (login_email s input.email) ≡ none
    pub has_name : is_empty (trim_space input.name) ≡ false
    pub long_enough : min_password ≤ byte_length input.password

  abbrev pub Checks : RegisterInput → Result (Unit {0}) → Type 0
  Checks input (ok _) = IsAcceptable input
  Checks input (err e) = (is_error e validation ≡ true) × ¬ (IsAcceptable input)

  check-Checks : (input : RegisterInput) → Checks input (check s input)
  unfolding check
  check-Checks input = ground (
    arith,
    is_error-detailed validation "email is required" validation,
    is_error-detailed validation "invalid email" validation,
    is_error-detailed validation "name is required" validation,
    is_error-detailed validation "password must be at least 8 characters" validation,
  )

  -- A request that is not acceptable fails with a validation error, and nothing has been read or written.
  pub register-rejects :
      (input : RegisterInput) (w : W)
      → ¬ (IsAcceptable input)
      → (e : GoError) × (is_error e validation ≡ true) × (register s input w ≡ (err e, w))
  unfolding register
  register-rejects input w bad = elim (Result-cases (check s input)) [
    | inl (_, accepted) ↦ absurd (bad (subst (Checks input) accepted (check-Checks input)))
    | inr (e, rejected) ↦ (e, (subst (Checks input) rejected (check-Checks input)).0, rw rejected)
  ]

  -- What a registration that went through has done, call by call.
  pub record IsEnrolled (input : RegisterInput) (w w' : W) (u : User) : Type 0 where
    pub hash : Text
    pub w1 : W
    pub hashed : s.bcrypt.generate input.password w ≡ (ok hash, w1)
    pub created : s.users.create (new_user s input hash) w1 ≡ (ok u.id, w')
    pub returned : u ≡ record (new_user s input hash) { id = u.id }

  returned-IsEnrolled :
      (input : RegisterInput) (hash : Text) (id : ℤ) (w w1 w2 w' : W) (u : User)
      → s.bcrypt.generate input.password w ≡ (ok hash, w1)
      → s.users.create (new_user s input hash) w1 ≡ (ok id, w2)
      → ◌≡◌ {A = Result User × W} (ok (record (new_user s input hash) { id = id }), w2) (ok u, w')
      → IsEnrolled input w w' u
  returned-IsEnrolled input hash id w w1 w2 w' u hashed created returned =
      let same_id : id ≡ u.id = ground arith in
      let same_world : w2 ≡ w' = ground arith in
      record {
        hash = hash;
        w1 = w1;
        hashed = hashed;
        created = created ∙ (λ i. (ok (same_id i), same_world i));
        returned = ground arith;
      }

  enrol-IsEnrolled :
      (input : RegisterInput) (w w' : W) {u : User}
      → enrol s input w ≡ (ok u, w')
      → IsEnrolled input w w' u
  unfolding enrol
  enrol-IsEnrolled input w w' {u} h =
      let (hash, w1, hashed, rest) =
        after-eq-ok _ (map_error (within "hash password") (s.bcrypt.generate input.password w)) h in
      let (id, w2, created, returned) =
        after-eq-ok _ (s.users.create (new_user s input hash) w1) rest in
      returned-IsEnrolled input hash id w w1 w2 w' u
        (map_error-eq-ok (within "hash password") _ hashed) created returned

  -- A registered user had an acceptable request. What the repository was given is the normalised address,
  -- the trimmed name and the hash that bcrypt made of the password, and the user that is returned is that
  -- with the repository's id.
  pub register-stores :
      (input : RegisterInput) (w w' : W) {u : User}
      → register s input w ≡ (ok u, w')
      → IsAcceptable input × IsEnrolled input w w' u
  unfolding register
  register-stores input w w' {u} h = elim (Result-cases (check s input)) [
    | inl (_, accepted) ↦ (
      subst (Checks input) accepted (check-Checks input),
      enrol-IsEnrolled input w w' (rw accepted at h),
    )
    | inr (e, rejected) ↦ absurd (ground (arith, rejected, h))
  ]

  -- The address that is stored is its own normal form, and `Invite`, which trims before it lowers, looks a
  -- user up under the same text as `Register` and `Login`, which lower before they trim.
  pub login_email_normal :
      (email : Text)
      → (login_email s (login_email s email) ≡ login_email s email)
        × (invite_email s.unicode email ≡ login_email s email)
  unfolding login_email invite_email
  login_email_normal email = (
    simp (trim_space-to_lower s.unicode, to_lower_idem s.unicode, trim_space_idem),
    sym (trim_space-to_lower s.unicode email),
  )
