-- ===== src/Text.antt =====
-- Decimal numbers as text, as Rust prints and parses an `i64` (`to_string`, `str::parse::<i64>`).
pub mod Laws
pub mod Exponent
use Prim.Native.Char.{Char, code}
use serverless_matching_engi.Prelude.{
  ℕ, zero, suc, ◌+◌, ◌-◌, ◌*◌, ◌/◌, ◌%◌, ◌^◌, String, Bool, true, false, Option, none, some, ltb,
  leb, ◌==◌, ◌&&◌, if◌then◌else◌,
}
use serverless_matching_engi.Prelude.Int.{ℤ, pos, negsuc, sub_ℕ}

pub digit_char : ℕ → Char
digit_char zero = "0"
digit_char (suc zero) = "1"
digit_char (suc (suc zero)) = "2"
digit_char (suc (suc (suc zero))) = "3"
digit_char (suc (suc (suc (suc zero)))) = "4"
digit_char (suc (suc (suc (suc (suc zero))))) = "5"
digit_char (suc (suc (suc (suc (suc (suc zero)))))) = "6"
digit_char (suc (suc (suc (suc (suc (suc (suc zero))))))) = "7"
digit_char (suc (suc (suc (suc (suc (suc (suc (suc zero)))))))) = "8"
digit_char d = "9"

pub digit_value : Char → Option ℕ
digit_value c = if leb b'0' (code c) && leb (code c) b'9' then some (code c - b'0') else none

-- The digits of `n` in front of `rest`, with one unit of fuel to a digit.
unfoldable pub print_digits : ℕ → ℕ → String → String
unfolding digit_char
print_digits zero n rest = rest
print_digits (suc fuel) n rest = elim (ltb n 10) [
  | true ↦ String.◌∷◌ (digit_char n) rest
  | false ↦ print_digits fuel (n / 10) (String.◌∷◌ (digit_char (n % 10)) rest)
]

-- The digits of the text after those of `n`.
unfoldable pub parse_digits : ℕ → String → Option ℕ
unfolding digit_value
parse_digits n String.[] = some n
parse_digits n (String.◌∷◌ c s) = elim (digit_value c) [
  | none ↦ none
  | some d ↦ parse_digits (10 * n + d) s
]

abbrev pub i64_bound : ℕ
i64_bound = 2 ^ 63

-- The range of an `i64`.
abbrev pub in_i64 : ℤ → Bool
in_i64 (pos n) = ltb n i64_bound
in_i64 (negsuc n) = ltb n i64_bound

-- Every `i64` has at most 19 digits.
unfoldable pub print_i64 : ℤ → String
print_i64 (pos n) = print_digits 20 n ""
print_i64 (negsuc n) = String.◌∷◌ "-" (print_digits 20 (suc n) "")

abbrev pub check_i64 : ℤ → Option ℤ
check_i64 i = if in_i64 i then some i else none

-- The value of a text of digits, which must not be empty, with its sign.
unfoldable pub parse_magnitude : (ℕ → ℤ) → String → Option ℤ
parse_magnitude sign String.[] = none
parse_magnitude sign (String.◌∷◌ c s) = elim (parse_digits 0 (String.◌∷◌ c s)) [
  | none ↦ none
  | some n ↦ check_i64 (sign n)
]

unfoldable pub parse_i64 : String → Option ℤ
parse_i64 String.[] = none
parse_i64 (String.◌∷◌ c s) =
    if code c == b'-'
    then parse_magnitude (λ n. sub_ℕ 0 n) s
    else if code c == b'+'
    then parse_magnitude (λ n. pos n) s
    else parse_magnitude (λ n. pos n) (String.◌∷◌ c s)
