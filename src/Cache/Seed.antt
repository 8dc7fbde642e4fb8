-- ===== src/Cache/Seed.antt =====
-- init_balances_from_pg and seed_orderbook_from_pg of crates/shared/src/cache.rs: Valkey is filled
-- from the tables of PostgreSQL. A row of `orders` holds its enumerations as texts, which
-- insert_order_db of crates/api/src/routes.rs writes.
pub mod Laws
mod Tests
use Prim.Native.String.{◌++◌ as append}
use serverless_matching_engi.Prelude.{
  ℕ, String, Bool, true, false, ◌&&◌, ◌||◌, Option, none, some, List, [], ◌∷◌, leb, str_eq,
  if◌then◌else◌,
}
use serverless_matching_engi.Prelude.Int.{ℤ, pos}
use serverless_matching_engi.Text.{print_i64}
use serverless_matching_engi.Types.{
  Order, Side, OrderType, TimeInForce, OrderStatus, SelfTradePreventionMode, Uuid, DateTime,
  Decimal, Quantity,
}
use serverless_matching_engi.Cache.Scale.{decimal_to_i64}
use serverless_matching_engi.Cache.Crates.{Crates}
use serverless_matching_engi.Cache.Valkey.{Valkey}
use serverless_matching_engi.Cache.Book.{save_order_to_book}
use serverless_matching_engi.Gateway.Orders.{side_str, order_type_str, tif_str, stp_str}

-- The columns that the query reads.
pub record Row : Type 0 where
  pub id : Uuid
  pub user_id : String
  pub pair_id : String
  pub side : String
  pub order_type : String
  pub tif : String
  pub price : Option Decimal
  pub quantity : Quantity
  pub remaining : Quantity
  pub status : String
  pub stp_mode : String
  pub version : ℤ
  pub created_at : DateTime

unfoldable pub status_str : OrderStatus → String
status_str OrderStatus.new = "New"
status_str OrderStatus.partially_filled = "PartiallyFilled"
status_str OrderStatus.filled = "Filled"
status_str OrderStatus.cancelled = "Cancelled"
status_str OrderStatus.rejected = "Rejected"

-- The values that insert_order_db binds.
unfoldable pub row_of : Order → Row
row_of o = record {
  id = o.id;
  user_id = o.user_id;
  pair_id = o.pair_id;
  side = side_str o.side;
  order_type = order_type_str o.order_type;
  tif = tif_str o.tif;
  price = o.price;
  quantity = o.quantity;
  remaining = o.remaining;
  status = status_str o.status;
  stp_mode = stp_str o.stp_mode;
  version = o.version;
  created_at = o.created_at;
}

infixl 5 ◌>>=◌
abbrev ◌>>=◌ : {T : Type 0} {U : Type 0} → Option T → (T → Option U) → Option U
none >>= f = none
some t >>= f = f t

abbrev pub side_of_text : String → Option Side
side_of_text s =
    if str_eq s "Buy" then some Side.buy else if str_eq s "Sell" then some Side.sell else none

abbrev pub order_type_of_text : String → Option OrderType
order_type_of_text s =
    if str_eq s "Limit"
    then some OrderType.limit
    else if str_eq s "Market"
    then some OrderType.market
    else none

abbrev pub tif_of_text : String → Option TimeInForce
tif_of_text s =
    if str_eq s "GTC"
    then some TimeInForce.gtc
    else if str_eq s "IOC"
    then some TimeInForce.ioc
    else if str_eq s "FOK"
    then some TimeInForce.fok
    else none

abbrev pub status_of_text : String → OrderStatus
status_of_text s =
    if str_eq s "New"
    then OrderStatus.new
    else if str_eq s "PartiallyFilled"
    then OrderStatus.partially_filled
    else OrderStatus.new

abbrev pub stp_of_text : String → SelfTradePreventionMode
stp_of_text s =
    if str_eq s "CancelMaker"
    then SelfTradePreventionMode.cancel_maker
    else if str_eq s "CancelTaker"
    then SelfTradePreventionMode.cancel_taker
    else if str_eq s "CancelBoth"
    then SelfTradePreventionMode.cancel_both
    else SelfTradePreventionMode.none

-- `none` for a row that is skipped.
unfoldable pub order_of_row : Row → Option Order
order_of_row r = do
  side ← side_of_text r.side
  order_type ← order_type_of_text r.order_type
  tif ← tif_of_text r.tif
  some (record {
    id = r.id;
    user_id = r.user_id;
    pair_id = r.pair_id;
    side = side;
    order_type = order_type;
    tif = tif;
    price = r.price;
    quantity = r.quantity;
    remaining = r.remaining;
    status = status_of_text r.status;
    stp_mode = stp_of_text r.stp_mode;
    version = r.version;
    sequence = pos 0;
    created_at = r.created_at;
    updated_at = r.created_at;
    client_order_id = none;
    received_at = none;
    matched_at = none;
    persisted_at = none;
  })

-- WHERE status IN ('New', 'PartiallyFilled') AND tif = 'GTC'.
abbrev pub is_resting : Row → Bool
is_resting r = (str_eq r.status "New" || str_eq r.status "PartiallyFilled") && str_eq r.tif "GTC"

-- ORDER BY created_at ASC.
unfoldable pub insert_row : Row → List Row → List Row
insert_row r [] = r ∷ []
insert_row r (s ∷ rows) =
    let rest = insert_row r rows in if leb r.created_at s.created_at then r ∷ s ∷ rows else s ∷ rest

unfoldable pub resting_rows : List Row → List Row
resting_rows [] = []
resting_rows (r ∷ rows) =
    let rest = resting_rows rows in if is_resting r then insert_row r rest else rest

-- A row of `balances`.
pub record BalanceRow : Type 0 where
  pub user_id : String
  pub asset : String
  pub available : Decimal
  pub locked : Decimal

module _ (v : Valkey) (lib : Crates) where
  open v use {Db, hset}

  abbrev pub save_some : Option Order → Db → Db
  save_some none db = db
  save_some (some o) db = save_order_to_book v lib o db

  unfoldable pub seed_rows : List Row → Db → Db
  seed_rows [] db = db
  seed_rows (r ∷ rows) db = seed_rows rows (save_some (order_of_row r) db)

  unfoldable pub seed_orderbook_from_pg : List Row → Db → Db
  seed_orderbook_from_pg rows db = seed_rows (resting_rows rows) db

  unfoldable pub init_balances_from_pg : List BalanceRow → Db → Db
  init_balances_from_pg [] db = db
  init_balances_from_pg (r ∷ rows) db = init_balances_from_pg rows (
      hset (append "balance:" (append r.user_id (append ":" r.asset)))
        (("available", print_i64 (decimal_to_i64 r.available))
          ∷ ("locked", print_i64 (decimal_to_i64 r.locked))
          ∷ [])
        db)
