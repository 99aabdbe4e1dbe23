-- ===== src/Config/Names.antt =====
-- Which variables of the environment matter.
use secunda_test.Base.{
  any, ◌≡◌, refl, ap, Bool, false, ◌||◌, ◌&&◌, List, [], ◌∷◌, ◌++◌, All, All-append_left, arith,
  Bool-cases, inl, inr, ◌==◌, if◌then◌else◌,
}
use secunda_test.Text.{Text, codes}
use secunda_test.Errors.Action.{Result-cases}
use secunda_test.Config.{
  Shape, leaf, struct, Layout, end, field, Value, Fields, Parsers, Env, is_skipped, env_name,
  override, override_value, apply_env_overrides,
}
use secunda_test.Config.Settings.{fields_of, Files, config_layout, load}

-- The names that a layout makes.
unfoldable mutual
  unfolding env_name is_skipped

  pub names_of_shape : Text → Shape → List Text
  names_of_shape name (leaf k) = name ∷ []
  names_of_shape name (struct l) = names_of name l

  pub names_of : Text → Layout → List Text
  names_of prefix end = []
  names_of prefix (field tag s l) =
      let rest = names_of prefix l in
      let own = names_of_shape (env_name prefix tag) s in
      if is_skipped tag then rest else own ++ rest

All-append_right : {A : Type 0} (P : A → Type 0) (xs ys : List A) → All P (xs ++ ys) → All P ys
All-append_right P [] ys h = h
All-append_right P (x ∷ xs) ys (p, h) = All-append_right P xs ys h

module _ (p : Parsers) (env other : Env) where
  abbrev Agree : Text → Type 0
  Agree n = env n ≡ other n

  mutual
    unfolding override_value names_of_shape

    same_value :
        (s : Shape) (name : Text) (v : Value s)
        → All Agree (names_of_shape name s)
        → override_value p s env name v ≡ override_value p s other name v
    same_value (leaf k) name v (same, _) = ap (override p k name v) same
    same_value (struct l) name v h = same_fields l name v h

    same_fields :
        (l : Layout) (prefix : Text) (v : Fields l)
        → All Agree (names_of prefix l)
        → apply_env_overrides p l env prefix v ≡ apply_env_overrides p l other prefix v
    same_fields end prefix v h = refl
    same_fields (field tag s l) prefix (v, rest) h = elim (Bool-cases (is_skipped tag)) [
      | inl skipped ↦ rw (skipped, same_fields l prefix rest (rw skipped at h))
      | inr used ↦
          let all : All Agree (names_of_shape (env_name prefix tag) s ++ names_of prefix l) =
            rw used at h in
          let own = same_value s (env_name prefix tag) v (
            All-append_left Agree (names_of_shape (env_name prefix tag) s) (names_of prefix l)
              all) in
          let others = same_fields l prefix rest (
            All-append_right Agree (names_of_shape (env_name prefix tag) s) (names_of prefix l)
              all) in
          rw (used, own, others)
    ]

-- Two underscores in a row.
unfoldable pub has_double : Text → Bool
has_double [] = false
has_double (c ∷ []) = false
has_double (c ∷ d ∷ s) = (c == b'_' && d == b'_') || has_double (d ∷ s)

names_of-config_layout :
    names_of (codes "APP") config_layout
    ≡ codes "APP_HTTP_PORT"
      ∷ codes "APP_HTTP_READ_TIMEOUT"
      ∷ codes "APP_HTTP_WRITE_TIMEOUT"
      ∷ codes "APP_HTTP_SHUTDOWN_TIMEOUT"
      ∷ codes "APP_MYSQL_DSN"
      ∷ codes "APP_MYSQL_MAX_OPEN_CONNS"
      ∷ codes "APP_MYSQL_MAX_IDLE_CONNS"
      ∷ codes "APP_MYSQL_CONN_MAX_LIFETIME"
      ∷ codes "APP_MYSQL_CONN_MAX_IDLE_TIME"
      ∷ codes "APP_REDIS_ADDR"
      ∷ codes "APP_REDIS_PASSWORD"
      ∷ codes "APP_REDIS_DB"
      ∷ codes "APP_REDIS_TASK_LIST_TTL"
      ∷ codes "APP_AUTH_JWT_SECRET"
      ∷ codes "APP_AUTH_TOKEN_TTL"
      ∷ codes "APP_RATELIMIT_REQUESTS_PER_MINUTE"
      ∷ codes "APP_EMAIL_FAILURE_THRESHOLD"
      ∷ codes "APP_EMAIL_OPEN_TIMEOUT"
      ∷ codes "APP_EMAIL_FAIL_RATE"
      ∷ []
unfolding names_of
names_of-config_layout = refl

none_double : any has_double (names_of (codes "APP") config_layout) ≡ false
unfolding names_of has_double
none_double = refl

All-absent :
    (q : Text → Bool) (P : Text → Type 0) (xs : List Text)
    → ((n : Text) → q n ≡ false → P n)
    → any q xs ≡ false
    → All P xs
All-absent q P [] h e = tt
All-absent q P (x ∷ xs) h e = (h x (ground (arith, e)), All-absent q P xs h (ground (arith, e)))

-- `Load` gives the same result under two environments that differ only in variables whose names have two
-- underscores in a row: a variable such as APP_MYSQL__DSN has no effect.
pub load_double :
    (files : Files) (p : Parsers) (env other : Env) (path : Text)
    → ((n : Text) → has_double n ≡ false → env n ≡ other n)
    → load files p env path ≡ load files p other path
unfolding load
load_double files p env other path h =
    let agree =
      All-absent has_double (λ n. env n ≡ other n) (names_of (codes "APP") config_layout) h
        none_double in
    elim (Result-cases (files.read_file path)) [
      | inr (e, failed) ↦ rw failed
      | inl (content, found) ↦ elim (Result-cases (files.unmarshal content)) [
        | inr (e, failed) ↦ rw (found, failed)
        | inl (cfg, parsed) ↦ rw (
          found,
          parsed,
          same_fields p env other config_layout (codes "APP") (fields_of cfg) agree,
        )
      ]
    ]
