-- ===== src/Worker/Persist.antt =====
-- persist_order of crates/gateway/src/worker.rs: the settlement of a matched order in PostgreSQL,
-- one transaction. Tables are lists of rows. The statements are modelled by what their text says;
-- a failing statement, which rolls the transaction back, is not modelled. The inserts of the order
-- and of the trades are modelled as rows appended, since their keys are fresh.
-- Costs and balances are natural numbers, so the model is that of prices and rows not below 0: the
-- source checks the sign of neither, and a limit price below 0 passes its validation. `mul` is the
-- product of a price and a quantity in rust_decimal.
pub mod Settle
pub mod Release
mod Tests
use serverless_matching_engi.Prelude.{
  ℕ, ◌+◌, ◌-◌, String, Bool, true, false, ◌&&◌, ◌||◌, Option, none, some, List, [], ◌∷◌, ◌++◌, ◌==◌,
  str_eq, not, if◌then◌else◌, map,
}
use serverless_matching_engi.Prelude.Int.{ℤ, pos}
use serverless_matching_engi.Types.{
  Order, Side, OrderStatus, Trade, Uuid, DateTime, Decimal, Quantity,
}
use serverless_matching_engi.Types.Pair.{parse_pair_id}

-- A row of `balances`.
pub record Balance : Type 0 where
  pub user_id : String
  pub asset : String
  pub available : ℕ
  pub locked : ℕ

-- What the trades take from `locked` and add to `available` of one user and asset.
pub record Delta : Type 0 where
  pub user_id : String
  pub asset : String
  pub locked_dec : ℕ
  pub avail_inc : ℕ

abbrev pub is_of : String → String → Delta → Bool
is_of user asset d = str_eq d.user_id user && str_eq d.asset asset

-- `entry((user, asset)).or_insert((0, 0))` with amounts added.
unfoldable pub add_delta : String → String → ℕ → ℕ → List Delta → List Delta
add_delta user asset dec inc [] =
    record { user_id = user; asset = asset; locked_dec = dec; avail_inc = inc } ∷ []
add_delta user asset dec inc (d ∷ ds) =
    if is_of user asset d
    then record d { locked_dec = d.locked_dec + dec; avail_inc = d.avail_inc + inc } ∷ ds
    else d ∷ add_delta user asset dec inc ds

-- One trade: the buyer pays the cost and gets the quantity, the seller the other way round.
unfoldable pub trade_deltas :
    (Decimal → Quantity → ℕ) → String → String → Trade → List Delta → List Delta
trade_deltas mul base quote t ds =
    let cost = mul t.price t.quantity in
    add_delta t.seller_id quote 0 cost (
      add_delta t.seller_id base t.quantity 0
        (add_delta t.buyer_id base 0 t.quantity (add_delta t.buyer_id quote cost 0 ds)))

-- `none` if a pair cannot be parsed: the error ends the call.
unfoldable pub all_deltas : (Decimal → Quantity → ℕ) → List Trade → List Delta → Option (List Delta)
all_deltas mul [] ds = some ds
all_deltas mul (t ∷ ts) ds = elim (parse_pair_id t.pair_id) [
  | none ↦ none
  | some (base, quote) ↦ all_deltas mul ts (trade_deltas mul base quote t ds)
]

abbrev pub find_delta : String → String → List Delta → Option Delta
find_delta user asset [] = none
find_delta user asset (d ∷ ds) = if is_of user asset d then some d else find_delta user asset ds

-- GREATEST(locked - dec, 0) is the difference of natural numbers.
abbrev pub settle_row : List Delta → Balance → Balance
settle_row ds b = elim (find_delta b.user_id b.asset ds) [
  | none ↦ b
  | some d ↦ record b { locked = b.locked - d.locked_dec; available = b.available + d.avail_inc }
]

-- UPDATE balances .. FROM UNNEST(..).
unfoldable pub update_balances : List Delta → List Balance → List Balance
update_balances ds = map (settle_row ds)

abbrev pub is_open : OrderStatus → Bool
is_open OrderStatus.new = true
is_open OrderStatus.partially_filled = true
is_open _ = false

-- A resting order and what was filled of it.
abbrev pub Fill : Type 0
Fill = Uuid × Quantity

abbrev pub find_fill : Uuid → List Fill → Option Quantity
find_fill id [] = none
find_fill id ((order_id, qty) ∷ fills) = if order_id == id then some qty else find_fill id fills

-- UPDATE orders .. FROM updates: remaining, status, version and updated_at of an open order.
abbrev pub fill_row : (ℤ → ℤ) → DateTime → List Fill → Order → Order
fill_row increment now fills o = elim (find_fill o.id fills) [
  | none ↦ o
  | some qty ↦
      if is_open o.status
      then record o {
        remaining = o.remaining - qty;
        status =
            if o.remaining - qty == 0 then OrderStatus.filled else OrderStatus.partially_filled;
        version = increment o.version;
        updated_at = now;
      }
      else o
]

unfoldable pub update_resting : (ℤ → ℤ) → DateTime → List Fill → List Order → List Order
update_resting increment now fills = map (fill_row increment now fills)

-- UPDATE balances .. WHERE user_id and asset: the release of what is left.
abbrev pub release_row : String → String → ℕ → Balance → Balance
release_row user asset amount b =
    if str_eq b.user_id user && str_eq b.asset asset
    then record b { available = b.available + amount; locked = b.locked - amount }
    else b

unfoldable pub release : String → String → ℕ → List Balance → List Balance
release user asset amount = map (release_row user asset amount)

abbrev pub closes : OrderStatus → Bool
closes OrderStatus.cancelled = true
closes OrderStatus.filled = true
closes _ = false

abbrev pub price_or_zero : Option Decimal → Decimal
price_or_zero none = pos 0
price_or_zero (some p) = p

-- Asset and amount that are released with what is left of an order.
unfoldable pub leftover : (Decimal → Quantity → ℕ) → String → String → Order → String × ℕ
leftover mul base quote o = elim o.side [
  | Side.buy ↦ (quote, mul (price_or_zero o.price) o.remaining)
  | Side.sell ↦ (base, o.remaining)
]

pub record Tables : Type 0 where
  pub orders : List Order
  pub trades : List Trade
  pub balances : List Balance

unfoldable pub release_leftover :
    (Decimal → Quantity → ℕ) → Order → List Balance → Option (List Balance)
release_leftover mul o balances =
    if closes o.status && not (o.remaining == 0)
    then elim (parse_pair_id o.pair_id) [
      | none ↦ none
      | some (base, quote) ↦
          let (asset, amount) = leftover mul base quote o in
          some (release o.user_id asset amount balances)
    ]
    else some balances

-- The status and remaining quantity of a closed order once more, with its version.
abbrev pub close_row : (ℤ → ℤ) → DateTime → Order → Order → Order
close_row increment now o row =
    if row.id == o.id
    then record row {
      remaining = o.remaining;
      status = o.status;
      version = increment row.version;
      updated_at = now;
    }
    else row

abbrev pub close_order : (ℤ → ℤ) → DateTime → Order → List Order → List Order
close_order increment now o rows =
    if is_open o.status then rows else map (close_row increment now o) rows

unfoldable pub persist_order :
    (Decimal → Quantity → ℕ)
    → (ℤ → ℤ)
    → DateTime
    → Order
    → List Trade
    → List Fill
    → Tables
    → Option Tables
persist_order mul increment now order trades fills t = elim (all_deltas mul trades []) [
  | none ↦ none
  | some deltas ↦ elim (release_leftover mul order (update_balances deltas t.balances)) [
    | none ↦ none
    | some balances ↦ some (record {
      orders =
          close_order increment now order (
            update_resting increment now fills
              (t.orders ++ record order { updated_at = now } ∷ []));
      trades = t.trades ++ trades;
      balances = balances;
    })
  ]
]
