-- ===== src/Worker/Persist/Release.antt =====
-- What a settlement of crates/gateway/src/worker.rs releases to the user of a closed order, and so
-- the rows of `balances` that it leaves.
use serverless_matching_engi.Prelude.{
  ℕ, ◌+◌, ◌-◌, ◌==◌, not, String, Bool, true, false, Option, ◌&&◌, ◌≡◌, refl, ◌∙◌, ap, none, some,
  List, str_eq, eq_iff, if◌then◌else◌, arith, map, fun_ext, All, Option-cases, inl, inr,
}
use serverless_matching_engi.Prelude.Int.{ℤ, pos, ◌≤ℤ◌}
use serverless_matching_engi.Types.{Trade, Decimal, Quantity, Order, OrderStatus, Side, DateTime}
use serverless_matching_engi.Types.Pair.{parse_pair_id}
use serverless_matching_engi.Worker.Persist.{
  Balance, closes, leftover, price_or_zero, release_row, persist_order, Tables, Fill,
}
use serverless_matching_engi.Worker.Persist.Settle.{
  paid, received, after_trades, after_release, persist_order-balances,
}

-- What is left of the order in an asset: for a buyer the price of what is left, in the quote asset,
-- and for a seller what is left, in the base asset. A buyer without a price has nothing.
abbrev pub remainder_in : (Decimal → Quantity → ℕ) → String → Order → Side → ℕ
remainder_in mul asset o Side.buy = elim (parse_pair_id o.pair_id) [
  | none ↦ 0
  | some (base, quote) ↦
      if str_eq quote asset
      then elim o.price [ none ↦ mul (pos 0) o.remaining | some price ↦ mul price o.remaining ]
      else 0
]
remainder_in mul asset o Side.sell = elim (parse_pair_id o.pair_id) [
  | none ↦ 0
  | some (base, quote) ↦ if str_eq base asset then o.remaining else 0
]

-- What a user gets back of an asset when an order of a status ends with something left.
abbrev pub freed : (Decimal → Quantity → ℕ) → String → String → Order → OrderStatus → ℕ
freed mul user asset o OrderStatus.new = 0
freed mul user asset o OrderStatus.partially_filled = 0
freed mul user asset o OrderStatus.rejected = 0
freed mul user asset o OrderStatus.filled =
    if str_eq o.user_id user && not (o.remaining == 0) then remainder_in mul asset o o.side else 0
freed mul user asset o OrderStatus.cancelled =
    if str_eq o.user_id user && not (o.remaining == 0) then remainder_in mul asset o o.side else 0

-- A row from which an amount is freed.
abbrev free : ℕ → Balance → Balance
free amount b = record b { available = b.available + amount; locked = b.locked - amount }

remainder_in-buy :
    (mul : Decimal → Quantity → ℕ) (o : Order) (base quote asset : String)
    → parse_pair_id o.pair_id ≡ some (base, quote)
    → remainder_in mul asset o Side.buy
      ≡ (if str_eq quote asset then mul (price_or_zero o.price) o.remaining else 0)
remainder_in-buy mul o base quote asset e = elim (Option-cases o.price) [
  | inl n ↦ rw (remainder_in, e, n) refl
  | inr (price, n) ↦ rw (remainder_in, e, n) refl
]

remainder_in-sell :
    (mul : Decimal → Quantity → ℕ) (o : Order) (base quote asset : String)
    → parse_pair_id o.pair_id ≡ some (base, quote)
    → remainder_in mul asset o Side.sell ≡ (if str_eq base asset then o.remaining else 0)
remainder_in-sell mul o base quote asset e = rw (remainder_in, e) refl

release_row-free :
    (mul : Decimal → Quantity → ℕ) (o : Order) (base quote : String) (b : Balance)
    → parse_pair_id o.pair_id ≡ some (base, quote)
    → release_row o.user_id (leftover mul base quote o).0 (leftover mul base quote o).1 b
      ≡ free (if str_eq o.user_id b.user_id then remainder_in mul b.asset o o.side else 0) b
unfolding leftover
release_row-free mul o base quote b e = by_side o.side
  where
    by_side :
        (side : Side)
        → let out : String × ℕ = elim side [
          | Side.buy ↦ (quote, mul (price_or_zero o.price) o.remaining)
          | Side.sell ↦ (base, o.remaining)
        ] in
          release_row o.user_id out.0 out.1 b
          ≡ free (if str_eq o.user_id b.user_id then remainder_in mul b.asset o side else 0) b
    by_side Side.buy = rw (remainder_in-buy mul o base quote b.asset e) (
        ground (
          arith,
          eq_iff b.user_id o.user_id,
          eq_iff o.user_id b.user_id,
          eq_iff b.asset quote,
          eq_iff quote b.asset,
        ))
    by_side Side.sell = rw (remainder_in-sell mul o base quote b.asset e) (
        ground (
          arith,
          eq_iff b.user_id o.user_id,
          eq_iff o.user_id b.user_id,
          eq_iff b.asset base,
          eq_iff base b.asset,
        ))

free_none : (b : Balance) → b ≡ free 0 b
free_none b = ground arith

after_release-freed :
    (mul : Decimal → Quantity → ℕ) (o : Order) (b : Balance)
    → after_release mul o b ≡ free (freed mul b.user_id b.asset o o.status) b
after_release-freed mul o b = by_status o.status
  where
    ends :
        (r : Bool)
        → (if not r
            then elim (parse_pair_id o.pair_id) [
              | none ↦ b
              | some (base, quote) ↦
                  release_row o.user_id
                    (leftover mul base quote o).0
                    (leftover mul base quote o).1
                    b
            ]
            else b)
          ≡ free
              (if str_eq o.user_id b.user_id && not r then remainder_in mul b.asset o o.side else 0)
              b
    ends true = ground arith
    ends false = elim (Option-cases (parse_pair_id o.pair_id)) [
      | inl e ↦ rw e (ground arith)
      | inr ((base, quote), e) ↦ rw e (release_row-free mul o base quote b e ∙ ground arith)
    ]

    by_status :
        (status : OrderStatus)
        → (if closes status && not (o.remaining == 0)
            then elim (parse_pair_id o.pair_id) [
              | none ↦ b
              | some (base, quote) ↦
                  release_row o.user_id
                    (leftover mul base quote o).0
                    (leftover mul base quote o).1
                    b
            ]
            else b)
          ≡ free (freed mul b.user_id b.asset o status) b
    by_status OrderStatus.new = free_none b
    by_status OrderStatus.partially_filled = free_none b
    by_status OrderStatus.rejected = free_none b
    by_status OrderStatus.filled = ends (o.remaining == 0)
    by_status OrderStatus.cancelled = ends (o.remaining == 0)

-- The settled row.
abbrev pub settled : (Decimal → Quantity → ℕ) → List Trade → Order → Balance → Balance
settled mul ts o b = record b {
  available =
      b.available + received b.user_id b.asset mul ts + freed mul b.user_id b.asset o o.status;
  locked = b.locked - paid b.user_id b.asset mul ts - freed mul b.user_id b.asset o o.status;
}

abbrev pub IsPriced : Option Decimal → Type 0
IsPriced none = Unit
IsPriced (some price) = pos 0 ≤ℤ price

-- The balances that a successful call leaves, if no price of the trades or of the order is below 0
-- and no row is: in each row the locked amount falls by what its user pays of its asset in the
-- trades (to 0 at the least) and the available amount rises by what the user receives; and if the
-- order is filled or cancelled with something left, that is moved from locked (to 0 at the least) to
-- available for its user, as a quantity for a seller and at the order's price for a buyer. So a
-- closed order with nothing left releases nothing, whatever is still locked for it.
pub persist_order_lem :
    (mul : Decimal → Quantity → ℕ) (increment : ℤ → ℤ) (now : DateTime) (o : Order)
    (ts : List Trade) (fills : List Fill) (t t' : Tables)
    → All (λ trade. pos 0 ≤ℤ trade.price) ts
    → IsPriced o.price
    → persist_order mul increment now o ts fills t ≡ some t'
    → t'.balances ≡ map (settled mul ts o) t.balances
persist_order_lem mul increment now o ts fills t t' priced own h =
    persist_order-balances mul increment now o ts fills t t' h
    ∙ ap (λ g. map g t.balances) (fun_ext (λ b. after_release-freed mul o (after_trades mul ts b)))
