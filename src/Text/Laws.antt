-- ===== src/Text/Laws.antt =====
-- What is printed is parsed back.
use native.Mathlib.Nat.{pow-succ'}
use serverless_matching_engi.Prelude.{
  ℕ, zero, suc, ◌+◌, ◌*◌, ◌/◌, ◌%◌, ◌^◌, ◌<◌, String, ◌≡◌, refl, some, ◌∙◌, ap, sym, arith, ltb,
  inl, inr, Bool-cases, true,
}
use serverless_matching_engi.Prelude.Int.{ℤ, pos, negsuc, sub_ℕ}
use serverless_matching_engi.Text.{
  digit_char, digit_value, print_digits, parse_digits, print_i64, parse_i64, parse_magnitude,
  in_i64, check_i64,
}

pub digit_value-digit_char : (d : ℕ) → d < 10 → digit_value (digit_char d) ≡ some d
unfolding digit_value digit_char
digit_value-digit_char zero h = refl
digit_value-digit_char (suc zero) h = refl
digit_value-digit_char (suc (suc zero)) h = refl
digit_value-digit_char (suc (suc (suc zero))) h = refl
digit_value-digit_char (suc (suc (suc (suc zero)))) h = refl
digit_value-digit_char (suc (suc (suc (suc (suc zero))))) h = refl
digit_value-digit_char (suc (suc (suc (suc (suc (suc zero)))))) h = refl
digit_value-digit_char (suc (suc (suc (suc (suc (suc (suc zero))))))) h = refl
digit_value-digit_char (suc (suc (suc (suc (suc (suc (suc (suc zero)))))))) h = refl
digit_value-digit_char (suc (suc (suc (suc (suc (suc (suc (suc (suc zero))))))))) h = refl
digit_value-digit_char (suc (suc (suc (suc (suc (suc (suc (suc (suc (suc d)))))))))) h =
    absurd (omega arith)

parse_digits-cons :
    (n d : ℕ) (rest : String)
    → d < 10
    → parse_digits n (String.◌∷◌ (digit_char d) rest) ≡ parse_digits (10 * n + d) rest
unfolding parse_digits
parse_digits-cons n d rest h = rw (digit_value-digit_char d h, parse_digits)

pub parse_digits-print_digits :
    (fuel n : ℕ) (rest : String)
    → n < 10 ^ fuel
    → parse_digits 0 (print_digits fuel n rest) ≡ parse_digits n rest
unfolding print_digits
parse_digits-print_digits zero n rest h = ap (λ m. parse_digits m rest) (omega arith)
parse_digits-print_digits (suc fuel) n rest h = elim (Bool-cases (ltb n 10)) [
  | inl e ↦
      rw (e, print_digits)
        (parse_digits-cons 0 n rest (ground arith) ∙ ap (λ m. parse_digits m rest) (omega arith))
  | inr e ↦
      rw (e, print_digits)
        (parse_digits-print_digits fuel (n / 10) _ (omega (arith, pow-succ' 10 fuel))
          ∙ parse_digits-cons (n / 10) (n % 10) rest (omega arith)
          ∙ ap (λ m. parse_digits m rest) (omega arith))
]

-- A print begins with a digit.
print_digits-cons :
    (fuel n : ℕ) (rest : String)
    → (d : ℕ) × (s : String) × (d < 10)
      × (print_digits (suc fuel) n rest ≡ String.◌∷◌ (digit_char d) s)
unfolding print_digits
print_digits-cons zero n rest = elim (Bool-cases (ltb n 10)) [
  | inl e ↦ (n, rest, ground arith, rw (e, print_digits))
  | inr e ↦ (n % 10, rest, omega arith, rw (e, print_digits))
]
print_digits-cons (suc fuel) n rest = elim (Bool-cases (ltb n 10)) [
  | inl e ↦ (n, rest, ground arith, rw (e, print_digits))
  | inr e ↦
      rw (e, print_digits) (print_digits-cons fuel (n / 10) (String.◌∷◌ (digit_char (n % 10)) rest))
]

parse_i64-digit :
    (d : ℕ) (s : String)
    → d < 10
    → parse_i64 (String.◌∷◌ (digit_char d) s)
      ≡ parse_magnitude (λ n. pos n) (String.◌∷◌ (digit_char d) s)
unfolding parse_i64 digit_char
parse_i64-digit zero s h = refl
parse_i64-digit (suc zero) s h = refl
parse_i64-digit (suc (suc zero)) s h = refl
parse_i64-digit (suc (suc (suc zero))) s h = refl
parse_i64-digit (suc (suc (suc (suc zero)))) s h = refl
parse_i64-digit (suc (suc (suc (suc (suc zero))))) s h = refl
parse_i64-digit (suc (suc (suc (suc (suc (suc zero)))))) s h = refl
parse_i64-digit (suc (suc (suc (suc (suc (suc (suc zero))))))) s h = refl
parse_i64-digit (suc (suc (suc (suc (suc (suc (suc (suc zero)))))))) s h = refl
parse_i64-digit (suc (suc (suc (suc (suc (suc (suc (suc (suc zero))))))))) s h = refl
parse_i64-digit (suc (suc (suc (suc (suc (suc (suc (suc (suc (suc d)))))))))) s h =
    absurd (omega arith)

parse_digits-nil : (n : ℕ) → parse_digits n "" ≡ some n
unfolding parse_digits
parse_digits-nil n = refl

parse_magnitude-print_digits :
    (sign : ℕ → ℤ) (n : ℕ)
    → n < 10 ^ 20
    → parse_magnitude sign (print_digits 20 n "") ≡ check_i64 (sign n)
unfolding parse_magnitude
parse_magnitude-print_digits sign n h = go (print_digits-cons 19 n "")
  where
    go :
        (d : ℕ) × (s : String) × (d < 10) × (print_digits 20 n "" ≡ String.◌∷◌ (digit_char d) s)
        → parse_magnitude sign (print_digits 20 n "") ≡ check_i64 (sign n)
    go (d, s, _, e) = rw (
      e,
      ap (parse_digits 0) (sym e) ∙ parse_digits-print_digits 20 n "" h ∙ parse_digits-nil n,
      parse_magnitude,
    )

-- Every `i64` that is printed is parsed back.
pub parse_i64-print_i64 : (i : ℤ) → in_i64 i ≡ true → parse_i64 (print_i64 i) ≡ some i
unfolding print_i64 parse_i64
parse_i64-print_i64 (pos n) h = unsigned (print_digits-cons 19 n "")
  where
    unsigned :
        (d : ℕ) × (s : String) × (d < 10) × (print_digits 20 n "" ≡ String.◌∷◌ (digit_char d) s)
        → parse_i64 (print_i64 (pos n)) ≡ some (pos n)
    unsigned (d, s, hd, e) =
        ap parse_i64 e
        ∙ parse_i64-digit d s hd
        ∙ ap (parse_magnitude (λ m. pos m)) (sym e)
        ∙ parse_magnitude-print_digits (λ m. pos m) n (ground arith)
        ∙ rw h
parse_i64-print_i64 (negsuc n) h =
    parse_magnitude-print_digits (λ m. sub_ℕ 0 m) (suc n) (ground arith) ∙ ground arith
