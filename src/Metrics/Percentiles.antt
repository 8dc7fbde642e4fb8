-- ===== src/Metrics/Percentiles.antt =====
-- What compute_percentiles of crates/shared/src/metrics.rs computes.
use serverless_matching_engi.Prelude.{
  ℕ, zero, suc, ◌+◌, ◌≤◌, ◌<◌, true, List, [], ◌∷◌, ◌≡◌, refl, sym, ap, arith, length, leb,
  if◌then◌else◌, Bool-cases, inl, inr, sum_by, All,
}
use serverless_matching_engi.Metrics.{insert, sort, nth, rank, percentile, compute_percentiles}

-- How many samples are at most `p`, and at least.
abbrev pub at_most : ℕ → List ℕ → ℕ
at_most p = sum_by (λ x. if leb x p then 1 else 0)

abbrev pub at_least : ℕ → List ℕ → ℕ
at_least p = sum_by (λ x. if leb p x then 1 else 0)

sum_by-insert : (f : ℕ → ℕ) (x : ℕ) (ys : List ℕ) → sum_by f (insert x ys) ≡ f x + sum_by f ys
unfolding insert
sum_by-insert f x [] = refl
sum_by-insert f x (y ∷ ys) = elim (Bool-cases (leb x y)) [
  | inl e ↦ rw (insert, e)
  | inr e ↦ rw (insert, e) (omega (arith, sum_by-insert f x ys))
]

sum_by-sort : (f : ℕ → ℕ) (xs : List ℕ) → sum_by f (sort xs) ≡ sum_by f xs
unfolding sort
sum_by-sort f [] = refl
sum_by-sort f (x ∷ xs) = omega (arith, sum_by-insert f x (sort xs), sum_by-sort f xs)

abbrev IsSorted : List ℕ → Type 0
IsSorted [] = Unit
IsSorted (x ∷ xs) = All (λ y. x ≤ y) xs × IsSorted xs

All-insert : (b x : ℕ) (ys : List ℕ) → b ≤ x → All (λ y. b ≤ y) ys → All (λ y. b ≤ y) (insert x ys)
unfolding insert
All-insert b x [] h hs = (h, tt)
All-insert b x (y ∷ ys) h hs = elim (Bool-cases (leb x y)) [
  | inl e ↦ rw (insert, e) (h, hs)
  | inr e ↦ rw (insert, e) (hs.0, All-insert b x ys h hs.1)
]

All-weaken : (a b : ℕ) (ys : List ℕ) → a ≤ b → All (λ y. b ≤ y) ys → All (λ y. a ≤ y) ys
All-weaken a b [] h hs = tt
All-weaken a b (y ∷ ys) h hs = (omega (arith, h, hs.0), All-weaken a b ys h hs.1)

insert-IsSorted : (x : ℕ) (ys : List ℕ) → IsSorted ys → IsSorted (insert x ys)
unfolding insert
insert-IsSorted x [] h = (tt, tt)
insert-IsSorted x (y ∷ ys) h = elim (Bool-cases (leb x y)) [
  | inl e ↦ let le : x ≤ y = ground arith in rw (insert, e) ((le, All-weaken x y ys le h.0), h)
  | inr e ↦
      let le : y ≤ x = ground arith in
      rw (insert, e) (All-insert y x ys le h.0, insert-IsSorted x ys h.1)
]

sort-IsSorted : (xs : List ℕ) → IsSorted (sort xs)
unfolding sort
sort-IsSorted [] = tt
sort-IsSorted (x ∷ xs) = insert-IsSorted x (sort xs) (sort-IsSorted xs)

nth-All : (b i : ℕ) (xs : List ℕ) → i < length xs → All (λ y. b ≤ y) xs → b ≤ nth i xs
nth-All b i [] h hs = absurd (omega (arith, h))
nth-All b zero (x ∷ xs) h hs = hs.0
nth-All b (suc i) (x ∷ xs) h hs = nth-All b i xs (omega (arith, h)) hs.1

nth_mono : (i j : ℕ) (xs : List ℕ) → IsSorted xs → i ≤ j → j < length xs → nth i xs ≤ nth j xs
nth_mono i j [] s h l = absurd (omega (arith, l))
nth_mono zero zero (x ∷ xs) s h l = omega arith
nth_mono zero (suc j) (x ∷ xs) s h l = nth-All x j xs (omega (arith, l)) s.0
nth_mono (suc i) zero (x ∷ xs) s h l = absurd (omega (arith, h))
nth_mono (suc i) (suc j) (x ∷ xs) s h l = nth_mono i j xs s.1 (omega (arith, h)) (omega (arith, l))

leb-true : (x y : ℕ) → x ≤ y → leb x y ≡ true
leb-true x y h = ground arith

at_least-All : (p : ℕ) (xs : List ℕ) → All (λ y. p ≤ y) xs → at_least p xs ≡ length xs
at_least-All p [] h = refl
at_least-All p (x ∷ xs) h = rw (leb-true p x h.0, at_least-All p xs h.1) (omega arith)

nth-counts :
    (i : ℕ) (xs : List ℕ)
    → IsSorted xs
    → i < length xs
    → (i < at_most (nth i xs) xs) × (length xs ≤ at_least (nth i xs) xs + i)
nth-counts i [] s l = absurd (omega (arith, l))
nth-counts zero (x ∷ xs) s l =
    rw (leb-true x x (omega arith), at_least-All x xs s.0) (omega arith, omega arith)
nth-counts (suc i) (x ∷ xs) s l =
    let rest = nth-counts i xs s.1 (omega (arith, l)) in
    rw (leb-true x (nth i xs) (nth-All x i xs (omega (arith, l)) s.0))
      (omega (arith, rest.0), omega (arith, rest.1))

length-sum_by : (xs : List ℕ) → sum_by (λ x. 1) xs ≡ length xs
length-sum_by [] = refl
length-sum_by (x ∷ xs) = omega (arith, length-sum_by xs)

length-sort : (xs : List ℕ) → length (sort xs) ≡ length xs
length-sort xs = omega (arith, length-sum_by xs, length-sum_by (sort xs), sum_by-sort (λ x. 1) xs)

rank-bound : (pct n : ℕ) → 0 < n → rank pct n < n
unfolding rank
rank-bound pct n h = ground arith

rank_mono : (n : ℕ) → (rank 50 n ≤ rank 95 n) × (rank 95 n ≤ rank 99 n)
unfolding rank
rank_mono n = (omega arith, omega arith)

-- A value at the rank of a percentage: more samples than the rank are at most it, and all but as
-- many as the rank are at least it.
abbrev pub IsRanked : ℕ → List ℕ → ℕ → Type 0
IsRanked pct samples p =
    (rank pct (length samples) < at_most p samples)
    × (length samples ≤ at_least p samples + rank pct (length samples))

percentile-IsRanked :
    (pct : ℕ) (samples : List ℕ)
    → 0 < length samples
    → IsRanked pct samples (percentile pct (sort samples))
unfolding percentile
percentile-IsRanked pct samples h =
    let len = length-sort samples in
    let r = rank pct (length (sort samples)) in
    let p = nth r (sort samples) in
    let counts =
      nth-counts r (sort samples) (sort-IsSorted samples)
        (rank-bound pct (length (sort samples)) (omega (arith, h, len))) in
    let below = sum_by-sort (λ x. if leb x p then 1 else 0) samples in
    let above = sum_by-sort (λ x. if leb p x then 1 else 0) samples in
    let same : rank pct (length samples) ≡ r = ap (rank pct) (sym len) in
    (omega (arith, counts, below, same), omega (arith, counts, above, same, len))

percentile_mono :
    (p q : ℕ) (samples : List ℕ)
    → 0 < length samples
    → rank p (length (sort samples)) ≤ rank q (length (sort samples))
    → percentile p (sort samples) ≤ percentile q (sort samples)
unfolding percentile
percentile_mono p q samples h le =
    let n = length (sort samples) in
    nth_mono (rank p n) (rank q n) (sort samples) (sort-IsSorted samples) le
      (rank-bound q n (omega (arith, h, length-sort samples)))

-- For samples, at least one, in any order: the three values do not fall, and each is a value at its
-- percentage's rank: with more samples at or below it than the rank, and at most as many below it.
pub compute_percentiles-IsRanked :
    (samples : List ℕ)
    → 0 < length samples
    → let (p50, p95, p99) = compute_percentiles samples in
      (p50 ≤ p95)
      × (p95 ≤ p99)
      × IsRanked 50 samples p50
      × IsRanked 95 samples p95
      × IsRanked 99 samples p99
unfolding compute_percentiles
compute_percentiles-IsRanked [] h = absurd (omega (arith, h))
compute_percentiles-IsRanked (x ∷ xs) h = (
  percentile_mono 50 95 (x ∷ xs) h (rank_mono (length (sort (x ∷ xs)))).0,
  percentile_mono 95 99 (x ∷ xs) h (rank_mono (length (sort (x ∷ xs)))).1,
  percentile-IsRanked 50 (x ∷ xs) h,
  percentile-IsRanked 95 (x ∷ xs) h,
  percentile-IsRanked 99 (x ∷ xs) h,
)
