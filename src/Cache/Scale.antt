-- ===== src/Cache/Scale.antt =====
-- decimal_to_i64 and i64_to_decimal of crates/shared/src/cache.rs: fixed point with 8 places.
-- A Decimal counts units of 10^-28, so the product with SCALE = 10^8, cut to a whole number, is
-- its quotient by 10^20. A product beyond the range of Decimal (about 7.9 * 10^28) would panic in
-- the source and is not modelled.
use serverless_matching_engi.Prelude.{
  ℕ, suc, ◌+◌, ◌*◌, ◌/◌, ◌^◌, ◌≤◌, ◌<◌, ◌≡◌, true, arith, if◌then◌else◌,
}
use serverless_matching_engi.Prelude.Int.{ℤ, pos, negsuc, sub_ℕ, pos_part}
use serverless_matching_engi.Types.{Decimal, Quantity}
use serverless_matching_engi.Text.{in_i64, i64_bound}

-- Units of a Decimal to one unit of the scaled integer: 10^28 / SCALE.
abbrev pub unit : ℕ
unit = 10 ^ 20

-- Towards zero, as `to_i64` cuts.
abbrev pub truncate : Decimal → ℤ
truncate (pos n) = pos (n / unit)
truncate (negsuc n) = sub_ℕ 0 (suc n / unit)

-- `unwrap_or(0)`: what does not fit an `i64` becomes 0.
unfoldable pub decimal_to_i64 : Decimal → ℤ
decimal_to_i64 d = if in_i64 (truncate d) then truncate d else pos 0

unfoldable pub i64_to_decimal : ℤ → Decimal
i64_to_decimal (pos n) = pos (n * unit)
i64_to_decimal (negsuc n) = sub_ℕ 0 (suc n * unit)

-- A scaled integer survives the way through a Decimal.
pub decimal_to_i64-i64_to_decimal :
    (i : ℤ) → in_i64 i ≡ true → decimal_to_i64 (i64_to_decimal i) ≡ i
unfolding decimal_to_i64 i64_to_decimal
decimal_to_i64-i64_to_decimal (pos n) h = ground arith
decimal_to_i64-i64_to_decimal (negsuc n) h = ground arith

-- A quantity loses less than one unit of 10^-8 on the way through a scaled integer, and nothing if
-- it has at most 8 decimal places, as long as it is below 2^63 units of 10^-8; from there on the
-- result is 0.
pub i64_to_decimal-decimal_to_i64 :
    (q : Quantity)
    → let back = pos_part (i64_to_decimal (decimal_to_i64 (pos q))) in
      (q < i64_bound * unit → (back ≤ q) × (q < back + unit))
      × ((k : ℕ) → q ≡ k * unit → k < i64_bound → back ≡ q)
      × (i64_bound * unit ≤ q → back ≡ 0)
unfolding decimal_to_i64 i64_to_decimal
i64_to_decimal-decimal_to_i64 q =
    ((λ h. ground arith), (λ k e h. ground arith), (λ h. ground arith))
