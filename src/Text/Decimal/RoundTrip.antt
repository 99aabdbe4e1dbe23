-- ===== src/Text/Decimal/RoundTrip.antt =====
-- Printing and reading back a decimal number.
use secunda_test.Base.{
  Option, none, zero, ℕ, zero, suc, ◌+◌, ◌/◌, ◌%◌, ◌≤◌, ◌<◌, ◌^◌, ◌≡◌, ◌≢◌, refl, some, [], ◌∷◌, ℤ,
  pos, negsuc, arith, IsInt64, All,
}
use secunda_test.Text.{Text}
use secunda_test.Text.Decimal.{
  positive, negative, emit, format_nat, format_int, scan, parse_nat, parse_int,
}

abbrev pub IsDigit : ℕ → Type 0
IsDigit c = (b'0' ≤ c) × (c ≤ b'9')

emit-All : (f n : ℕ) (out : Text) → n ≤ f → All IsDigit out → All IsDigit (emit f n out)
unfolding emit
emit-All zero n out h k = (omega arith, k)
emit-All (suc f) n out h k = ground (arith, emit-All f (n / 10) ((b'0' + n % 10) ∷ out))

pub format_nat-All : (n : ℕ) → All IsDigit (format_nat n)
unfolding format_nat
format_nat-All n = emit-All n n [] (omega arith) tt

scan-emit : (f n : ℕ) (out : Text) → n ≤ f → scan (emit f n out) 0 ≡ scan out n
unfolding emit scan
scan-emit zero n out h = ground arith
scan-emit (suc f) n out h = ground (arith, scan-emit f (n / 10) ((b'0' + n % 10) ∷ out))

emit-ne-nil : (f n : ℕ) (out : Text) → emit f n out ≢ []
unfolding emit
emit-ne-nil zero n out = cc
emit-ne-nil (suc f) n out = ground (arith, emit-ne-nil f (n / 10) ((b'0' + n % 10) ∷ out))

parse_nat-scan : (s : Text) → s ≢ [] → parse_nat s ≡ scan s 0
unfolding parse_nat
parse_nat-scan [] h = absurd (h refl)
parse_nat-scan (c ∷ s) h = refl

parse_nat-format_nat : (n : ℕ) → parse_nat (format_nat n) ≡ some n
unfolding format_nat scan
parse_nat-format_nat n =
    rw (parse_nat-scan (emit n n []) (emit-ne-nil n n []), scan-emit n n [] (omega arith))

parse_int_of_digits :
    (s : Text) (n : ℕ)
    → All IsDigit s
    → parse_nat s ≡ some n
    → n < 2 ^ 63
    → parse_int s ≡ some (pos n)
unfolding parse_int
parse_int_of_digits [] n h e lt = cc
parse_int_of_digits (c ∷ s) n h e lt = ground arith

-- Every int64 is read back from its decimal print.
pub parse_int-format_int : (n : ℤ) → IsInt64 n → parse_int (format_int n) ≡ some n
unfolding parse_int format_int
parse_int-format_int (pos n) h =
    parse_int_of_digits (format_nat n) n (format_nat-All n) (parse_nat-format_nat n) h
parse_int-format_int (negsuc n) h = ground (arith, parse_nat-format_nat (suc n))

-- What a parsed number is, if there is one.
abbrev pub IsParsed : Option ℤ → Type 0
IsParsed none = Unit
IsParsed (some n) = IsInt64 n

positive-IsParsed : (o : Option ℕ) → IsParsed (positive o)
positive-IsParsed none = tt
positive-IsParsed (some n) = ground arith

negative-IsParsed : (o : Option ℕ) → IsParsed (negative o)
negative-IsParsed none = tt
negative-IsParsed (some zero) = omega arith
negative-IsParsed (some (suc n)) = ground arith

-- Nothing out of the range of int64 is ever parsed.
pub parse_int-IsParsed : (s : Text) → IsParsed (parse_int s)
unfolding parse_int
parse_int-IsParsed [] = tt
parse_int-IsParsed (c ∷ s) = ground (
  arith,
  negative-IsParsed (parse_nat s),
  positive-IsParsed (parse_nat s),
  positive-IsParsed (parse_nat (c ∷ s)),
)
