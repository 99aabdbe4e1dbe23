-- ===== src/Config.antt =====
-- internal/config/config.go. Reflection over a struct is a universe: a `Layout` lists the fields with their
-- yaml tags, and `Fields` is the type of the structs with that layout. Reading the file, the YAML decoder,
-- time.ParseDuration and strconv.ParseFloat are parameters; a float64 is its bit pattern.
pub mod Settings
pub mod Names
pub mod Sources
use secunda_test.Base.{
  ℕ, ◌≡◌, refl, Bool, true, false, ◌||◌, ◌&&◌, Option, none, some, List, [], ◌∷◌, ◌++◌, map, ℤ, ◌-◌,
  ◌==◌, leb, if◌then◌else◌,
}
use secunda_test.Text.{Text, codes, is_empty, text_eq}
use secunda_test.Text.Decimal.{parse_int}
use secunda_test.Errors.{GoError, wrapped, within, other}
use secunda_test.Errors.Action.{Result, ok, err}
use secunda_test.Errors.Outcome.{◌>>=◌}

-- The kinds of a field that `setValue` tells apart; any other has the name that `Kind` prints.
pub data Kind : Type 0 where
  text int duration float bool : Kind
  unsupported : Text → Kind

abbrev pub Leaf : Kind → Type 0
Leaf text = Text
Leaf int = ℤ
Leaf duration = ℤ
Leaf float = ℕ
Leaf bool = Bool
Leaf (unsupported kind) = Unit {0}

mutual
  pub data Shape : Type 0 where
    leaf : Kind → Shape
    struct : Layout → Shape

  pub data Layout : Type 0 where
    end : Layout
    field : Text → Shape → Layout → Layout

abbrev mutual
  pub Value : Shape → Type 0
  Value (leaf k) = Leaf k
  Value (struct l) = Fields l

  pub Fields : Layout → Type 0
  Fields end = Unit {0}
  Fields (field tag s l) = Value s × Fields l

-- What the code calls of strconv and time, where it is not written out here. `num_error` is the error of a
-- function of strconv for a text.
pub record Parsers : Type 0 where
  pub parse_duration : Text → Result ℤ
  pub parse_float : Text → Result ℕ
  pub num_error : Text → Text → GoError

-- `strconv.ParseBool`
unfoldable pub parse_bool : Text → Option Bool
unfolding text_eq
parse_bool s =
    if text_eq s (codes "1")
      || text_eq s (codes "t")
      || text_eq s (codes "T")
      || text_eq s (codes "true")
      || text_eq s (codes "TRUE")
      || text_eq s (codes "True")
    then some true
    else if text_eq s (codes "0")
        || text_eq s (codes "f")
        || text_eq s (codes "F")
        || text_eq s (codes "false")
        || text_eq s (codes "FALSE")
        || text_eq s (codes "False")
    then some false
    else none

abbrev pub or_error : {A : Type 0} → GoError → Option A → Result A
or_error e none = err e
or_error e (some a) = ok a

-- The environment, as `os.LookupEnv` reads it.
abbrev pub Env : Type 0
Env = Text → Option Text

-- `strings.ToUpper` of a tag, which is ASCII.
unfoldable pub upper : Text → Text
upper = map λ c. if leb b'a' c && leb c b'z' then c - 32 else c

-- `strings.Split(tag, ",")[0]`
unfoldable pub before_comma : Text → Text
before_comma [] = []
before_comma (c ∷ s) = if c == b',' then [] else c ∷ before_comma s

-- `if tag == "" || tag == "-" { continue }`
unfoldable pub is_skipped : Text → Bool
unfolding before_comma text_eq
is_skipped tag = is_empty (before_comma tag) || text_eq (before_comma tag) (codes "-")

unfoldable pub env_name : Text → Text → Text
unfolding before_comma upper
env_name prefix tag = prefix ++ codes "_" ++ upper (before_comma tag)

module _ (p : Parsers) where
  -- `setValue`
  unfoldable pub set_value : (k : Kind) → Text → Result (Leaf k)
  unfolding parse_int parse_bool
  set_value text raw = ok raw
  set_value int raw = or_error (p.num_error (codes "ParseInt") raw) (parse_int raw)
  set_value duration raw = p.parse_duration raw
  set_value float raw = p.parse_float raw
  set_value bool raw = or_error (p.num_error (codes "ParseBool") raw) (parse_bool raw)
  set_value (unsupported kind) raw = err (other (codes "unsupported kind " ++ kind))

  -- `fmt.Errorf("set %s: %w", envName, err)`
  abbrev pub setting : {A : Type 0} → Text → Result A → Result A
  setting name (ok a) = ok a
  setting name (err e) = err (wrapped (codes "set " ++ name ++ codes ": ") e [])

  -- One field that is no struct.
  unfoldable pub override : (k : Kind) → Text → Leaf k → Option Text → Result (Leaf k)
  unfolding set_value
  override k name old none = ok old
  override k name old (some raw) = setting name (set_value k raw)

  -- `applyEnvOverrides`
  unfoldable mutual
    unfolding override env_name is_skipped

    pub override_value : (s : Shape) → Env → Text → Value s → Result (Value s)
    override_value (leaf k) env name v = override k name v (env name)
    override_value (struct l) env name v = apply_env_overrides l env name v

    pub apply_env_overrides : (l : Layout) → Env → Text → Fields l → Result (Fields l)
    apply_env_overrides end env prefix v = ok v
    apply_env_overrides (field tag s l) env prefix (v, rest) =
        (if is_skipped tag then ok v else override_value s env (env_name prefix tag) v) >>= λ v1.
        apply_env_overrides l env prefix rest >>= λ rest1. ok (v1, rest1)
