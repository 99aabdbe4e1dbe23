-- ===== src/Text.antt =====
-- Go strings as sequences of code points, and what the program uses of the packages strings,
-- strconv and unicode/utf8. A text that came through encoding/json is valid UTF-8, since the decoder
-- replaces every invalid sequence, so nothing is lost by code points; `byte_length` is Go's `len`.
pub mod Case
pub mod Trim
pub mod Decimal
pub mod Index
use Prim.Native.Char.{code}
use Prim.Native.String.{String}
use secunda_test.Base.{
  ℕ, suc, ◌+◌, ◌≡◌, ◌↔◌, Bool, true, false, ◌&&◌, ◌||◌, Option, none, some, List, [], ◌∷◌, arith,
  ltb, leb, ◌==◌, if◌then◌else◌,
}

abbrev pub Text : Type 0
Text = List ℕ

-- The code points of a literal.
abbrev pub codes : String → Text
codes String.[] = []
codes (String.◌∷◌ c s) = code c ∷ codes s

-- `a == b` on strings.
unfoldable pub text_eq : Text → Text → Bool
text_eq [] [] = true
text_eq (a ∷ s) (b ∷ t) = a == b && text_eq s t
text_eq [] (_ ∷ _) = false
text_eq (_ ∷ _) [] = false

pub text_eq_iff : (s t : Text) → (text_eq s t ≡ true) ↔ (s ≡ t)
unfolding text_eq
text_eq_iff [] [] = ground arith
text_eq_iff (a ∷ s) (b ∷ t) = ground (arith, text_eq_iff s t)
text_eq_iff [] (b ∷ t) = ground arith
text_eq_iff (a ∷ s) [] = ground arith

-- `s == ""`.
abbrev pub is_empty : Text → Bool
is_empty [] = true
is_empty (_ ∷ _) = false

-- `unicode.IsSpace`, for every code point.
unfoldable pub is_space : ℕ → Bool
is_space c =
    (leb 9 c && leb c 13)
    || c == 32
    || c == 0x85
    || c == 0xA0
    || c == 0x1680
    || (leb 0x2000 c && leb c 0x200A)
    || c == 0x2028
    || c == 0x2029
    || c == 0x202F
    || c == 0x205F
    || c == 0x3000

unfoldable pub trim_left : Text → Text
trim_left [] = []
trim_left (c ∷ s) = if is_space c then trim_left s else c ∷ s

unfoldable pub trim_right : Text → Text
trim_right [] = []
trim_right (c ∷ s) = let rest = trim_right s in if is_space c && is_empty rest then [] else c ∷ rest

-- `strings.TrimSpace`.
unfoldable pub trim_space : Text → Text
unfolding trim_left trim_right is_space
trim_space s = trim_right (trim_left s)

-- `utf8.RuneLen`, and Go's `len` of a string.
unfoldable pub rune_length : ℕ → ℕ
rune_length c = if ltb c 0x80 then 1 else if ltb c 0x800 then 2 else if ltb c 0x10000 then 3 else 4

unfoldable pub byte_length : Text → ℕ
unfolding rune_length
byte_length [] = 0
byte_length (c ∷ s) = rune_length c + byte_length s

-- `strings.HasPrefix`.
unfoldable pub has_prefix : Text → Text → Bool
has_prefix s [] = true
has_prefix [] (_ ∷ _) = false
has_prefix (c ∷ s) (d ∷ p) = c == d && has_prefix s p

-- `strings.IndexByte` for an ASCII byte; `none` is Go's -1.
unfoldable pub index_byte : Text → ℕ → Option ℕ
index_byte [] b = none
index_byte (c ∷ s) b =
    if c == b then some 0 else elim (index_byte s b) [ none ↦ none | some i ↦ some (suc i) ]
