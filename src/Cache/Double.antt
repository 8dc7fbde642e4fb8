-- ===== src/Cache/Double.antt =====
-- Whole numbers as the doubles that the scripts of crates/shared/src/cache.rs compute with: exact
-- below 2^53, and above that rounded to 53 bits, a tie to the even neighbour.
use serverless_matching_engi.Prelude.{
  ℕ, zero, suc, ◌+◌, ◌*◌, ◌/◌, ◌%◌, ◌^◌, ◌<◌, ◌≡◌, ◌||◌, ◌&&◌, true, if◌then◌else◌, ltb, ◌==◌, ◌≤◌,
  arith, Bool-cases, inl, inr,
}
use serverless_matching_engi.Prelude.Int.{ℤ, pos, negsuc, sub_ℕ, ltb_ℤ}

-- The multiple of `2 * half` that is nearest.
abbrev pub round_to : ℕ → ℕ → ℕ
round_to half n =
    let spacing = 2 * half in
    let down = n / spacing in
    let rest = n % spacing in
    if ltb half rest || ((rest == half) && (down % 2 == 1))
    then (down + 1) * spacing
    else down * spacing

-- The spacing of doubles doubles with each power of 2 above 2^53; eleven of them reach 2^64.
unfoldable pub round_from : ℕ → ℕ → ℕ → ℕ
round_from zero half n = round_to half n
round_from (suc more) half n =
    let wider = round_from more (2 * half) n in
    if ltb n (half * 2 ^ 54) then round_to half n else wider

unfoldable pub magnitude : ℕ → ℕ
magnitude n = if ltb n (2 ^ 53) then n else round_from 10 1 n

unfoldable pub to_double : ℤ → ℤ
to_double (pos n) = pos (magnitude n)
to_double (negsuc n) = sub_ℕ 0 (magnitude (suc n))

rounds_to_even : to_double (pos 9007199254740993) ≡ pos 9007199254740992
unfolding to_double magnitude round_from
rounds_to_even = ground arith

to_double-pos : (n : ℕ) → n < 2 ^ 53 → to_double (pos n) ≡ pos n
unfolding to_double magnitude
to_double-pos n h = ground arith

-- What is less than an exact positive number is so as a double.
pub to_double-less :
    (i : ℤ) (n : ℕ)
    → 0 < n
    → n < 2 ^ 53
    → ltb_ℤ i (pos n) ≡ true
    → ltb_ℤ (to_double i) (to_double (pos n)) ≡ true
unfolding to_double magnitude
to_double-less (pos m) n p h l = ground arith
to_double-less (negsuc m) n p h l = ground arith

multiple-positive :
    (n spacing : ℕ)
    → 0 < spacing
    → spacing ≤ n
    → (0 < n / spacing * spacing) × (0 < (n / spacing + 1) * spacing)
multiple-positive n spacing p le =
    let split : (n / spacing * spacing + n % spacing ≡ n) × (n % spacing < spacing) =
      omega (arith, p) in
    (omega (arith, split, le), omega (arith, split, le))

round_to-positive : (half n : ℕ) → 0 < half → 2 * half ≤ n → 0 < round_to half n
round_to-positive half n p le =
    let (lower, upper) = multiple-positive n (2 * half) (omega (arith, p)) le in
    let spacing = 2 * half in
    elim (Bool-cases
      (ltb half (n % spacing) || ((n % spacing == half) && (n / spacing % 2 == 1)))) [
        | inl c ↦ rw c upper
        | inr c ↦ rw c lower
      ]

round_from-positive : (more half n : ℕ) → 0 < half → 2 * half ≤ n → 0 < round_from more half n
unfolding round_from
round_from-positive zero half n p le = round_to-positive half n p le
round_from-positive (suc more) half n p le = elim (Bool-cases (ltb n (half * 2 ^ 54))) [
  | inl c ↦ rw (c, round_from) (round_to-positive half n p le)
  | inr c ↦
      let large : half * 2 ^ 54 ≤ n = ground arith in
      rw (c, round_from)
        (round_from-positive more (2 * half) n (omega (arith, p)) (omega (arith, p, large)))
]

magnitude-positive : (n : ℕ) → 0 < n → 0 < magnitude n
unfolding magnitude
magnitude-positive n p = elim (Bool-cases (ltb n (2 ^ 53))) [
  | inl c ↦ rw (c, magnitude) p
  | inr c ↦
      let large : 2 ^ 53 ≤ n = ground arith in
      rw (c, magnitude) (round_from-positive 10 1 n (omega arith) (omega (arith, large)))
]

pub to_double-positive :
    (i : ℤ) → ltb_ℤ (pos 0) i ≡ true → ltb_ℤ (to_double (pos 0)) (to_double i) ≡ true
unfolding to_double magnitude
to_double-positive (pos n) p =
    let positive : 0 < n = ground arith in let kept = magnitude-positive n positive in ground arith
to_double-positive (negsuc n) p = ground arith
