-- ===== src/Api/Persist/Supply.antt =====
-- What all users together hold of an asset, before and after persist_trades of
-- crates/api/src/routes.rs.
use serverless_matching_engi.Prelude.{
  ℕ, ◌+◌, ◌≤◌, String, some, List, [], ◌∷◌, ◌≡◌, refl, str_eq, eq_iff, eq_refl, if◌then◌else◌,
  arith, Option-cases, Bool-cases, inl, inr, sum_by,
}
use serverless_matching_engi.Prelude.Int.{ℤ}
use serverless_matching_engi.Types.{Trade, DateTime, Decimal, Quantity}
use serverless_matching_engi.Types.Pair.{parse_pair_id}
use serverless_matching_engi.Worker.Persist.{
  Balance, Delta, Tables, add_delta, trade_deltas, all_deltas,
}
use serverless_matching_engi.Worker.Persist.Settle.{paid, all_deltas_by}
use serverless_matching_engi.Api.Persist.{
  precedes, insert_delta, sort_deltas, upsert, upsert_all, persist_trades,
}
use serverless_matching_engi.Api.Persist.Settle.{
  locked_of, sum_dec, sum_inc, sums-add_delta, sums-sort_deltas, upsert_lem,
}

-- Every amount of an asset, available or locked, whoever holds it.
abbrev pub supply : String → List Balance → ℕ
supply asset = sum_by (λ b. if str_eq b.asset asset then b.available + b.locked else 0)

abbrev taken : String → List Delta → ℕ
taken asset = sum_by (λ d. if str_eq d.asset asset then d.locked_dec else 0)

abbrev given : String → List Delta → ℕ
given asset = sum_by (λ d. if str_eq d.asset asset then d.avail_inc else 0)

-- No user pays more of an asset in the trades than is locked for that.
abbrev pub IsCovered : (Decimal → Quantity → ℕ) → List Trade → List Balance → Type 0
IsCovered mul ts rows = (user asset : String) → paid user asset mul ts ≤ locked_of user asset rows

abbrev Covers : List Balance → List Delta → Type 0
Covers rows ds = (user asset : String) → sum_dec user asset ds ≤ locked_of user asset rows

module _ (asset : String) where
  sums-insert :
      (d : Delta) (ds : List Delta)
      → (taken asset (insert_delta d ds) ≡ taken asset (d ∷ ds))
        × (given asset (insert_delta d ds) ≡ given asset (d ∷ ds))
  unfolding insert_delta
  sums-insert d [] = (refl, refl)
  sums-insert d (e ∷ ds) = elim (Bool-cases (precedes d e)) [
    | inl first ↦ rw (insert_delta, first) (refl, refl)
    | inr after ↦
        let rest = sums-insert d ds in
        rw (insert_delta, after) (omega (arith, rest), omega (arith, rest))
  ]

  sums-sort :
      (ds : List Delta)
      → (taken asset (sort_deltas ds) ≡ taken asset ds)
        × (given asset (sort_deltas ds) ≡ given asset ds)
  unfolding sort_deltas
  sums-sort [] = (refl, refl)
  sums-sort (d ∷ ds) =
      let later = sums-sort ds in
      let now = sums-insert d (sort_deltas ds) in
      (omega (arith, later, now), omega (arith, later, now))

  sums-add :
      (u a : String) (dec inc : ℕ) (ds : List Delta)
      → (taken asset (add_delta u a dec inc ds)
          ≡ taken asset ds + (if str_eq a asset then dec else 0))
        × (given asset (add_delta u a dec inc ds)
            ≡ given asset ds + (if str_eq a asset then inc else 0))
  unfolding add_delta
  sums-add u a dec inc [] = ground arith
  sums-add u a dec inc (d ∷ ds) =
      ground (arith, sums-add u a dec inc ds, eq_iff d.user_id u, eq_iff d.asset a)

  module _ (mul : Decimal → Quantity → ℕ) where
    -- A trade takes of each asset what it gives.
    trade_deltas-even :
        (base quote : String) (t : Trade) (ds : List Delta)
        → taken asset (trade_deltas mul base quote t ds) + given asset ds
          ≡ given asset (trade_deltas mul base quote t ds) + taken asset ds
    unfolding trade_deltas
    trade_deltas-even base quote t ds =
        let cost = mul t.price t.quantity in
        let d1 = add_delta t.buyer_id quote cost 0 ds in
        let d2 = add_delta t.buyer_id base 0 t.quantity d1 in
        let d3 = add_delta t.seller_id base t.quantity 0 d2 in
        let l1 = sums-add t.buyer_id quote cost 0 ds in
        let l2 = sums-add t.buyer_id base 0 t.quantity d1 in
        let l3 = sums-add t.seller_id base t.quantity 0 d2 in
        let l4 = sums-add t.seller_id quote 0 cost d3 in ground (arith, l1, l2, l3, l4)

    all_deltas-even :
        (ts : List Trade) (ds ds' : List Delta)
        → all_deltas mul ts ds ≡ some ds'
        → taken asset ds' + given asset ds ≡ given asset ds' + taken asset ds
    unfolding all_deltas
    all_deltas-even [] ds ds' h = ground arith
    all_deltas-even (t ∷ ts) ds ds' h = elim (Option-cases (parse_pair_id t.pair_id)) [
      | inl e ↦ absurd (ground arith)
      | inr ((base, quote), e) ↦
          let later : all_deltas mul ts (trade_deltas mul base quote t ds) ≡ some ds' =
            ground arith in
          let rest = all_deltas-even ts (trade_deltas mul base quote t ds) ds' later in
          omega (arith, rest, trade_deltas-even base quote t ds)
    ]

  upsert-supply :
      (d : Delta) (rows : List Balance)
      → d.locked_dec ≤ locked_of d.user_id d.asset rows
      → supply asset (upsert d rows) + (if str_eq d.asset asset then d.locked_dec else 0)
        ≡ supply asset rows + (if str_eq d.asset asset then d.avail_inc else 0)
  unfolding upsert
  upsert-supply d [] h = ground arith
  upsert-supply d (b ∷ rows) h = ground (
    arith,
    upsert-supply d rows,
    eq_iff d.user_id b.user_id,
    eq_iff d.asset b.asset,
    eq_iff b.user_id d.user_id,
    eq_iff b.asset d.asset,
    eq_iff d.asset asset,
    eq_iff b.asset asset,
  )

  upsert_all-supply :
      (ds : List Delta) (rows : List Balance)
      → Covers rows ds
      → supply asset (upsert_all ds rows) + taken asset ds ≡ supply asset rows + given asset ds
  unfolding upsert_all
  upsert_all-supply [] rows h = refl
  upsert_all-supply (d ∷ ds) rows h =
      let here : d.locked_dec ≤ locked_of d.user_id d.asset rows =
        ground (arith, h d.user_id d.asset, eq_refl d.user_id, eq_refl d.asset) in
      let later =
        upsert_all-supply ds (upsert d rows)
          (λ user a. omega (arith, h user a, upsert_lem user a d rows)) in
      omega (arith, later, upsert-supply d rows here)

-- If no user pays more of an asset than is locked, persisting the trades leaves what all users
-- together hold of every asset as it was, rows that are new included.
pub persist_trades-supply :
    (mul : Decimal → Quantity → ℕ) (increment : ℤ → ℤ) (now : DateTime) (ts : List Trade)
    (t t' : Tables)
    → IsCovered mul ts t.balances
    → persist_trades mul increment now ts t ≡ some t'
    → (asset : String) → supply asset t'.balances ≡ supply asset t.balances
unfolding persist_trades
persist_trades-supply mul increment now [] t t' covered h asset = ground arith
persist_trades-supply mul increment now (trade ∷ ts) t t' covered h asset =
    elim (Option-cases (all_deltas mul (trade ∷ ts) [])) [
      | inl e ↦ absurd (ground arith)
      | inr (ds, e) ↦
          let eq : t'.balances ≡ upsert_all (sort_deltas ds) t.balances = ground arith in
          let even = all_deltas-even asset mul (trade ∷ ts) [] ds e in
          let covers : Covers t.balances (sort_deltas ds) = λ user a. omega (
            arith,
            covered user a,
            sums-sort_deltas user a ds,
            all_deltas_by user a mul (sum_dec user a) (sum_inc user a) (sums-add_delta user a)
                (trade ∷ ts) [] ds e,
          ) in
          let after = upsert_all-supply asset (sort_deltas ds) t.balances covers in
          rw eq (omega (arith, even, after, sums-sort asset ds))
    ]
