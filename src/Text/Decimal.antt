-- ===== src/Text/Decimal.antt =====
-- `strconv.FormatInt(n, 10)`, `fmt.Sprintf("%d", n)`, `strconv.ParseInt(s, 10, 64)` and
-- `strconv.Atoi` on a 64-bit machine.
pub mod RoundTrip
use secunda_test.Base.{
  ℕ, zero, suc, ◌+◌, ◌-◌, ◌*◌, ◌/◌, ◌%◌, ◌^◌, ◌≡◌, refl, Bool, ◌&&◌, Option, none, some, List, [],
  ◌∷◌, ℤ, pos, negsuc, ltb, leb, ◌==◌, if◌then◌else◌,
}
use secunda_test.Text.{Text, codes}

-- The digits of `n` in front of `out`, one a round, the last digit first. `n` rounds are enough.
emit : ℕ → ℕ → Text → Text
emit zero n out = (b'0' + n % 10) ∷ out
emit (suc f) n out =
    let rest = emit f (n / 10) ((b'0' + n % 10) ∷ out) in
    if ltb n 10 then (b'0' + n) ∷ out else rest

unfoldable pub format_nat : ℕ → Text
unfolding emit
format_nat n = emit n n []

unfoldable pub format_int : ℤ → Text
unfolding format_nat
format_int (pos n) = format_nat n
format_int (negsuc n) = b'-' ∷ format_nat (suc n)

abbrev pub is_digit : ℕ → Bool
is_digit c = leb b'0' c && leb c b'9'

-- The number that the digits of a text spell behind `n`.
unfoldable pub scan : Text → ℕ → Option ℕ
scan [] n = some n
scan (c ∷ s) n = if is_digit c then scan s (n * 10 + (c - b'0')) else none

-- At least one digit, and nothing else.
unfoldable pub parse_nat : Text → Option ℕ
unfolding scan
parse_nat [] = none
parse_nat (c ∷ s) = scan (c ∷ s) 0

-- The range test of `ParseInt`: the positive numbers end at 2^63 - 1, the negative ones at -2^63.
abbrev positive : Option ℕ → Option ℤ
positive none = none
positive (some n) = if ltb n (2 ^ 63) then some (pos n) else none

abbrev negative : Option ℕ → Option ℤ
negative none = none
negative (some zero) = some (pos 0)
negative (some (suc n)) = if ltb n (2 ^ 63) then some (negsuc n) else none

-- `none` is an error, of syntax or of range.
unfoldable pub parse_int : Text → Option ℤ
unfolding parse_nat
parse_int [] = none
parse_int (c ∷ s) =
    if c == b'-'
    then negative (parse_nat s)
    else if c == b'+'
    then positive (parse_nat s)
    else positive (parse_nat (c ∷ s))

format_int_runs : format_int (negsuc 1206) ≡ codes "-1207"
unfolding format_int
format_int_runs = refl

parse_int_limits :
    (parse_int (codes "9223372036854775807") ≡ some (pos (2 ^ 63 - 1)))
    × (parse_int (codes "9223372036854775808") ≡ none)
    × (parse_int (codes "-9223372036854775808") ≡ some (negsuc (2 ^ 63 - 1)))
    × (parse_int (codes "+") ≡ none)
unfolding parse_int
parse_int_limits = (refl, refl, refl, refl)
