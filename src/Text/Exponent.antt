-- ===== src/Text/Exponent.antt =====
-- Numbers as `tonumber` of Lua reads them in crates/shared/src/lua/match_order.lua and the scripts of
-- crates/shared/src/cache.rs: whole numbers of any size, also with an exponent, as its own `tostring`
-- prints a large number ("1.5e+14"). What is no whole number is not read.
use Prim.Native.Char.{code}
use serverless_matching_engi.Prelude.{
  ℕ, ◌+◌, ◌-◌, ◌*◌, ◌^◌, ◌≡◌, refl, String, Bool, true, false, not, Option, none, some, leb, ◌==◌,
  ◌&&◌, if◌then◌else◌,
}
use serverless_matching_engi.Prelude.Int.{ℤ, pos, sub_ℕ}
use serverless_matching_engi.Text.{digit_value, parse_i64, parse_magnitude, parse_digits}

-- The digits `n`, the last `places` of them behind the point, times a power of ten.
abbrev pub scaled : ℕ → ℕ → Option ℤ → Option ℕ
scaled n places (some (pos k)) = if leb places k then some (n * 10 ^ (k - places)) else none
scaled n places _ = none

-- What follows the digits `n`; `behind` says that the point was read.
unfoldable pub parse_rest : ℕ → ℕ → Bool → String → Option ℕ
unfolding digit_value
parse_rest n places behind String.[] = if places == 0 then some n else none
parse_rest n places behind (String.◌∷◌ c s) = elim (digit_value c) [
  | some d ↦ parse_rest (10 * n + d) (if behind then places + 1 else places) behind s
  | none ↦
      let fraction = parse_rest n places true s in
      if (code c == b'.') && not behind
      then fraction
      else if code c == b'e'
      then scaled n places (parse_i64 s)
      else none
]

abbrev pub signed : (ℕ → ℤ) → Option ℕ → Option ℤ
signed sign none = none
signed sign (some n) = some (sign n)

-- The text must start with a digit.
unfoldable pub parse_unsigned : String → Option ℕ
unfolding digit_value
parse_unsigned String.[] = none
parse_unsigned (String.◌∷◌ c s) = elim (digit_value c) [
  | none ↦ none
  | some d ↦ parse_rest d 0 false s
]

unfoldable pub parse_large : String → Option ℤ
parse_large String.[] = none
parse_large (String.◌∷◌ c s) =
    if code c == b'-'
    then signed (λ n. sub_ℕ 0 n) (parse_unsigned s)
    else signed (λ n. pos n) (parse_unsigned (String.◌∷◌ c s))

-- An `i64`, or else one of the larger numbers and the other forms.
abbrev pub tonumber : String → Option ℤ
tonumber s = elim (parse_i64 s) [ some i ↦ some i | none ↦ parse_large s ]

reads_exponents : tonumber "1.5e+14" ≡ some (pos 150000000000000)
unfolding parse_large parse_unsigned parse_rest parse_i64 parse_magnitude parse_digits
reads_exponents = refl

reads_negative : tonumber "-1e+14" ≡ some (sub_ℕ 0 100000000000000)
unfolding parse_large parse_unsigned parse_rest parse_i64 parse_magnitude parse_digits
reads_negative = refl

refuses_words : tonumber "nil" ≡ none
unfolding parse_large parse_unsigned parse_rest parse_i64 parse_magnitude parse_digits
refuses_words = refl
