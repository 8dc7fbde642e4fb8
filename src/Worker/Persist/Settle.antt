-- ===== src/Worker/Persist/Settle.antt =====
-- The balances after a settlement, against what each user pays and receives in the trades.
use mathlib.Core.List.{map-map, map-id}
use serverless_matching_engi.Prelude.{
  ℕ, ◌+◌, ◌-◌, ◌==◌, not, String, Bool, ◌&&◌, ◌≡◌, ◌∙◌, ap, none, some, List, [], ◌∷◌, str_eq,
  eq_iff, if◌then◌else◌, arith, map, fun_ext, Option-cases, inl, inr, Bool-cases, sym,
}
use serverless_matching_engi.Prelude.Int.{ℤ}
use serverless_matching_engi.Types.{Trade, Decimal, Quantity, Order, DateTime}
use serverless_matching_engi.Types.Pair.{parse_pair_id}
use serverless_matching_engi.Worker.Persist.{
  Balance, Delta, add_delta, trade_deltas, all_deltas, find_delta, settle_row, update_balances,
  closes, leftover, release_row, release, release_leftover, persist_order, Tables, Fill,
}

abbrev dec_at : String → String → List Delta → ℕ
dec_at user asset ds = elim (find_delta user asset ds) [ none ↦ 0 | some d ↦ d.locked_dec ]

abbrev inc_at : String → String → List Delta → ℕ
inc_at user asset ds = elim (find_delta user asset ds) [ none ↦ 0 | some d ↦ d.avail_inc ]

abbrev pub same : String → String → String → String → Bool
same u a user asset = str_eq u user && str_eq a asset

module _ (user asset : String) where
  add_delta_lem :
      (u a : String) (dec inc : ℕ) (ds : List Delta)
      → (dec_at user asset (add_delta u a dec inc ds)
          ≡ dec_at user asset ds + (if same u a user asset then dec else 0))
        × (inc_at user asset (add_delta u a dec inc ds)
            ≡ inc_at user asset ds + (if same u a user asset then inc else 0))
  unfolding add_delta
  add_delta_lem u a dec inc [] = ground arith
  add_delta_lem u a dec inc (d ∷ ds) = ground (
    arith,
    add_delta_lem u a dec inc ds,
    eq_iff d.user_id u,
    eq_iff d.asset a,
    eq_iff d.user_id user,
    eq_iff d.asset asset,
    eq_iff u user,
    eq_iff a asset,
  )

  module _ (mul : Decimal → Quantity → ℕ) where
    -- What the user gives of the asset in one trade, and gets.
    abbrev pub pays : String → String → Trade → ℕ
    pays base quote t =
        (if same t.buyer_id quote user asset then mul t.price t.quantity else 0)
        + (if same t.seller_id base user asset then t.quantity else 0)

    abbrev pub gets : String → String → Trade → ℕ
    gets base quote t =
        (if same t.buyer_id base user asset then t.quantity else 0)
        + (if same t.seller_id quote user asset then mul t.price t.quantity else 0)

    -- In all trades, by the assets of each trade's pair.
    abbrev pub paid : List Trade → ℕ
    paid [] = 0
    paid (t ∷ ts) =
        (elim (parse_pair_id t.pair_id) [ none ↦ 0 | some (base, quote) ↦ pays base quote t ])
        + paid ts

    abbrev pub received : List Trade → ℕ
    received [] = 0
    received (t ∷ ts) =
        (elim (parse_pair_id t.pair_id) [ none ↦ 0 | some (base, quote) ↦ gets base quote t ])
        + received ts

    -- Two measures of the deltas to which every addition adds what it is for.
    module _ (decs incs : List Delta → ℕ)
        (adds : (u a : String) (dec inc : ℕ) (ds : List Delta)
          → (decs (add_delta u a dec inc ds) ≡ decs ds + (if same u a user asset then dec else 0))
            × (incs (add_delta u a dec inc ds)
                ≡ incs ds + (if same u a user asset then inc else 0))) where
      trade_deltas_lem :
          (base quote : String) (t : Trade) (ds : List Delta)
          → (decs (trade_deltas mul base quote t ds) ≡ decs ds + pays base quote t)
            × (incs (trade_deltas mul base quote t ds) ≡ incs ds + gets base quote t)
      unfolding trade_deltas
      trade_deltas_lem base quote t ds =
          let cost = mul t.price t.quantity in
          let d1 = add_delta t.buyer_id quote cost 0 ds in
          let d2 = add_delta t.buyer_id base 0 t.quantity d1 in
          let d3 = add_delta t.seller_id base t.quantity 0 d2 in
          let l1 = adds t.buyer_id quote cost 0 ds in
          let l2 = adds t.buyer_id base 0 t.quantity d1 in
          let l3 = adds t.seller_id base t.quantity 0 d2 in
          let l4 = adds t.seller_id quote 0 cost d3 in ground (arith, l1, l2, l3, l4)

      pub all_deltas_by :
          (ts : List Trade) (ds ds' : List Delta)
          → all_deltas mul ts ds ≡ some ds'
          → (decs ds' ≡ decs ds + paid ts) × (incs ds' ≡ incs ds + received ts)
      unfolding all_deltas
      all_deltas_by [] ds ds' h = ground arith
      all_deltas_by (t ∷ ts) ds ds' h = elim (Option-cases (parse_pair_id t.pair_id)) [
        | inl e ↦ absurd (ground arith)
        | inr ((base, quote), e) ↦
            let later : all_deltas mul ts (trade_deltas mul base quote t ds) ≡ some ds' =
              ground arith in
            let rest = all_deltas_by ts (trade_deltas mul base quote t ds) ds' later in
            let one = trade_deltas_lem base quote t ds in rw e (omega (arith, rest, one))
      ]

    all_deltas_lem :
        (ts : List Trade) (ds ds' : List Delta)
        → all_deltas mul ts ds ≡ some ds'
        → (dec_at user asset ds' ≡ dec_at user asset ds + paid ts)
          × (inc_at user asset ds' ≡ inc_at user asset ds + received ts)
    all_deltas_lem = all_deltas_by (dec_at user asset) (inc_at user asset) add_delta_lem

settle_row_lem :
    (ds : List Delta) (b : Balance)
    → settle_row ds b ≡ record b {
      locked = b.locked - dec_at b.user_id b.asset ds;
      available = b.available + inc_at b.user_id b.asset ds;
    }
settle_row_lem ds b = ground arith

-- The row after the trades: what its user pays of its asset is taken from what is locked, as far as
-- it goes, and what the user receives is made available.
abbrev pub after_trades : (Decimal → Quantity → ℕ) → List Trade → Balance → Balance
after_trades mul ts b = record b {
  locked = b.locked - paid b.user_id b.asset mul ts;
  available = b.available + received b.user_id b.asset mul ts;
}

settle_row-after_trades :
    (mul : Decimal → Quantity → ℕ) (ts : List Trade) (ds : List Delta) (b : Balance)
    → all_deltas mul ts [] ≡ some ds
    → settle_row ds b ≡ after_trades mul ts b
settle_row-after_trades mul ts ds b h =
    let sums = all_deltas_lem b.user_id b.asset mul ts [] ds h in
    settle_row_lem ds b ∙ ground (arith, sums)

pub update_balances_lem :
    (mul : Decimal → Quantity → ℕ) (ts : List Trade) (ds : List Delta) (rows : List Balance)
    → all_deltas mul ts [] ≡ some ds
    → update_balances ds rows ≡ map (after_trades mul ts) rows
unfolding update_balances
update_balances_lem mul ts ds rows h = rw (fun_ext (λ b. settle_row-after_trades mul ts ds b h))

-- What is released to the user of a closed order: all that was locked for what is left of it.
abbrev pub after_release : (Decimal → Quantity → ℕ) → Order → Balance → Balance
after_release mul o b =
    if closes o.status && not (o.remaining == 0)
    then elim (parse_pair_id o.pair_id) [
      | none ↦ b
      | some (base, quote) ↦
          let (asset, amount) = leftover mul base quote o in release_row o.user_id asset amount b
    ]
    else b

release_leftover_lem :
    (mul : Decimal → Quantity → ℕ) (o : Order) (rows rows' : List Balance)
    → release_leftover mul o rows ≡ some rows'
    → rows' ≡ map (after_release mul o) rows
unfolding release_leftover release
release_leftover_lem mul o rows rows' h =
    elim (Bool-cases (closes o.status && not (o.remaining == 0))) [
      | inl c ↦ elim (Option-cases (parse_pair_id o.pair_id)) [
        | inl e ↦ absurd (ground arith)
        | inr ((base, quote), e) ↦
            let same_row : (b : Balance)
                → release_row o.user_id (leftover mul base quote o).0 (leftover mul base quote o).1
                    b
                  ≡ after_release mul o b =
              λ b. rw (c, e) in
            let eq : rows'
                ≡ release o.user_id (leftover mul base quote o).0 (leftover mul base quote o).1
                    rows =
              ground arith in
            eq ∙ ap (λ f. map f rows) (fun_ext same_row)
      ]
      | inr c ↦
          let same_row : (b : Balance) → b ≡ after_release mul o b = λ b. rw c in
          let eq : rows' ≡ rows = ground arith in
          eq ∙ sym (map-id rows) ∙ ap (λ f. map f rows) (fun_ext same_row)
    ]

pub persist_order-balances :
    (mul : Decimal → Quantity → ℕ) (increment : ℤ → ℤ) (now : DateTime) (o : Order)
    (ts : List Trade) (fills : List Fill) (t t' : Tables)
    → persist_order mul increment now o ts fills t ≡ some t'
    → t'.balances ≡ map (λ b. after_release mul o (after_trades mul ts b)) t.balances
unfolding persist_order
persist_order-balances mul increment now o ts fills t t' h =
    elim (Option-cases (all_deltas mul ts [])) [
      | inl e ↦ absurd (ground arith)
      | inr (ds, e) ↦ elim (Option-cases (release_leftover mul o (update_balances ds t.balances))) [
        | inl f ↦ absurd (ground arith)
        | inr (rows, f) ↦
            let eq : t'.balances ≡ rows = ground arith in
            eq
            ∙ release_leftover_lem mul o (update_balances ds t.balances) rows f
            ∙ ap (map (after_release mul o)) (update_balances_lem mul ts ds t.balances e)
            ∙ map-map (after_release mul o) (after_trades mul ts) t.balances
      ]
    ]
