-- ===== src/Api/Persist/Settle.antt =====
-- The balances that persist_trades of crates/api/src/routes.rs leaves, against what each user pays
-- and receives in the trades.
use serverless_matching_engi.Prelude.{
  ℕ, ◌+◌, ◌-◌, String, some, List, [], ◌∷◌, ◌≡◌, refl, eq_iff, if◌then◌else◌, arith, Option-cases,
  Bool-cases, inl, inr, All,
}
use serverless_matching_engi.Prelude.Int.{ℤ, pos, ◌≤ℤ◌}
use serverless_matching_engi.Types.{Trade, DateTime, Decimal, Quantity}
use serverless_matching_engi.Worker.Persist.{Balance, Delta, Tables, is_of, add_delta, all_deltas}
use serverless_matching_engi.Worker.Persist.Settle.{same, paid, received, all_deltas_by}
use serverless_matching_engi.Api.Persist.{
  precedes, insert_delta, sort_deltas, upsert, upsert_all, persist_trades,
}

module _ (user asset : String) where
  -- What a user holds of an asset; without a row, nothing.
  abbrev pub available_of : List Balance → ℕ
  available_of [] = 0
  available_of (b ∷ rows) =
      if same b.user_id b.asset user asset then b.available else available_of rows

  abbrev pub locked_of : List Balance → ℕ
  locked_of [] = 0
  locked_of (b ∷ rows) = if same b.user_id b.asset user asset then b.locked else locked_of rows

  abbrev pub sum_dec : List Delta → ℕ
  sum_dec [] = 0
  sum_dec (d ∷ ds) = (if is_of user asset d then d.locked_dec else 0) + sum_dec ds

  abbrev pub sum_inc : List Delta → ℕ
  sum_inc [] = 0
  sum_inc (d ∷ ds) = (if is_of user asset d then d.avail_inc else 0) + sum_inc ds

  pub sums-add_delta :
      (u a : String) (dec inc : ℕ) (ds : List Delta)
      → (sum_dec (add_delta u a dec inc ds) ≡ sum_dec ds + (if same u a user asset then dec else 0))
        × (sum_inc (add_delta u a dec inc ds)
            ≡ sum_inc ds + (if same u a user asset then inc else 0))
  unfolding add_delta
  sums-add_delta u a dec inc [] = ground arith
  sums-add_delta u a dec inc (d ∷ ds) =
      ground (arith, sums-add_delta u a dec inc ds, eq_iff d.user_id u, eq_iff d.asset a)

  sums-insert_delta :
      (d : Delta) (ds : List Delta)
      → (sum_dec (insert_delta d ds) ≡ sum_dec (d ∷ ds))
        × (sum_inc (insert_delta d ds) ≡ sum_inc (d ∷ ds))
  unfolding insert_delta
  sums-insert_delta d [] = (refl, refl)
  sums-insert_delta d (e ∷ ds) = elim (Bool-cases (precedes d e)) [
    | inl first ↦ rw (insert_delta, first) (refl, refl)
    | inr after ↦
        let rest = sums-insert_delta d ds in
        rw (insert_delta, after) (omega (arith, rest), omega (arith, rest))
  ]

  pub sums-sort_deltas :
      (ds : List Delta)
      → (sum_dec (sort_deltas ds) ≡ sum_dec ds) × (sum_inc (sort_deltas ds) ≡ sum_inc ds)
  unfolding sort_deltas
  sums-sort_deltas [] = (refl, refl)
  sums-sort_deltas (d ∷ ds) =
      let later = sums-sort_deltas ds in
      let now = sums-insert_delta d (sort_deltas ds) in
      (omega (arith, later, now), omega (arith, later, now))

  pub upsert_lem :
      (d : Delta) (rows : List Balance)
      → (available_of (upsert d rows)
          ≡ available_of rows + (if is_of user asset d then d.avail_inc else 0))
        × (locked_of (upsert d rows)
            ≡ locked_of rows - (if is_of user asset d then d.locked_dec else 0))
  unfolding upsert
  upsert_lem d [] = ground arith
  upsert_lem d (b ∷ rows) = ground (
    arith,
    upsert_lem d rows,
    eq_iff d.user_id b.user_id,
    eq_iff d.asset b.asset,
    eq_iff d.user_id user,
    eq_iff d.asset asset,
    eq_iff b.user_id user,
    eq_iff b.asset asset,
  )

  upsert_all_lem :
      (ds : List Delta) (rows : List Balance)
      → (available_of (upsert_all ds rows) ≡ available_of rows + sum_inc ds)
        × (locked_of (upsert_all ds rows) ≡ locked_of rows - sum_dec ds)
  unfolding upsert_all
  upsert_all_lem [] rows = (omega arith, omega arith)
  upsert_all_lem (d ∷ ds) rows =
      let later = upsert_all_lem ds (upsert d rows) in
      let now = upsert_lem d rows in (omega (arith, later, now), omega (arith, later, now))

  -- If no price of the trades is below 0 and no row is: for every user and asset, what is available rises by what the user receives of the asset in the
  -- trades, even if the user had no row for it before, and what is locked falls by what the user
  -- pays, to 0 at the least.
  pub persist_trades_lem :
      (mul : Decimal → Quantity → ℕ) (increment : ℤ → ℤ) (now : DateTime) (ts : List Trade)
      (t t' : Tables)
      → All (λ trade. pos 0 ≤ℤ trade.price) ts
      → persist_trades mul increment now ts t ≡ some t'
      → (available_of t'.balances ≡ available_of t.balances + received user asset mul ts)
        × (locked_of t'.balances ≡ locked_of t.balances - paid user asset mul ts)
  unfolding persist_trades
  persist_trades_lem mul increment now [] t t' priced h = ground arith
  persist_trades_lem mul increment now (trade ∷ ts) t t' priced h =
      elim (Option-cases (all_deltas mul (trade ∷ ts) [])) [
        | inl e ↦ absurd (ground arith)
        | inr (ds, e) ↦
            let sums =
              all_deltas_by user asset mul sum_dec sum_inc sums-add_delta (trade ∷ ts) [] ds e in
            let sorted = sums-sort_deltas ds in
            let done = upsert_all_lem (sort_deltas ds) t.balances in
            let eq : t'.balances ≡ upsert_all (sort_deltas ds) t.balances = ground arith in
            rw eq (omega (arith, sums, sorted, done), omega (arith, sums, sorted, done))
      ]
