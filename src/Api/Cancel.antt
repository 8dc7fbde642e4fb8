-- ===== src/Api/Cancel.antt =====
-- process_cancellation of crates/api/src/worker.rs: the requests of the queue queue:cancellations.
-- The decoded JSON comes as a record. The statements are modelled by what their text says, and are
-- taken to succeed. A balance is a signed number here, since nothing keeps `locked` from falling
-- below zero. Logging and the mark for the refresh of the user's cached view are left out.
pub mod Money
pub mod Rows
pub mod Queue
mod Tests
use Prim.Native.String.{◌++◌ as append}
use serverless_matching_engi.Prelude.{
  ℕ, String, Bool, true, false, ◌&&◌, Option, none, some, List, [], ◌∷◌, map, ◌==◌, str_eq,
  if◌then◌else◌,
}
use serverless_matching_engi.Prelude.Int.{ℤ, pos, ◌+ℤ◌, ◌-ℤ◌}
use serverless_matching_engi.Types.{
  Order, Side, OrderType, TimeInForce, OrderStatus, SelfTradePreventionMode, Uuid, DateTime,
  Decimal, Quantity,
}
use serverless_matching_engi.Types.Pair.{split_dash}
use serverless_matching_engi.Cache.Crates.{Crates}
use serverless_matching_engi.Cache.Valkey.{Valkey}
use serverless_matching_engi.Cache.Book.{remove_order_from_book}
use serverless_matching_engi.Worker.Message.{or_else}
use serverless_matching_engi.Worker.Persist.{is_open, price_or_zero}
use serverless_matching_engi.Gateway.Orders.{Cancellation, Payload, Replacement}

-- A row of `balances`.
pub record Account : Type 0 where
  pub user_id : String
  pub asset : String
  pub available : ℤ
  pub locked : ℤ

pub data CancelError : Type 0 where
  missing_order_id invalid_order_id : CancelError

-- `none` is `Ok(())`.
abbrev pub Reply : Type 0
Reply = Option CancelError

-- What the call takes from outside; `cost` is the product of rust_decimal.
pub record Context : Type 0 where
  pub crates : Crates
  pub cost : Decimal → Quantity → ℕ

-- SELECT .. WHERE id = $1 AND user_id = $2.
unfoldable pub find_row : Uuid → String → List Order → Option Order
find_row id user [] = none
find_row id user (o ∷ rows) =
    if (o.id == id) && str_eq o.user_id user then some o else find_row id user rows

-- UPDATE orders SET status = 'Cancelled', remaining = 0, updated_at = NOW() WHERE id = $1.
abbrev pub cancelled : DateTime → Order → Order
cancelled now o = record o { status = OrderStatus.cancelled; remaining = 0; updated_at = now }

abbrev pub cancel_row : Uuid → DateTime → Order → Order
cancel_row id now o = if o.id == id then cancelled now o else o

unfoldable pub cancel_rows : Uuid → DateTime → List Order → List Order
cancel_rows id now = map (cancel_row id now)

-- UPDATE balances SET locked = locked - $1, available = available + $1 WHERE user_id and asset.
abbrev pub give_back : String → String → ℕ → Account → Account
give_back user asset amount b =
    if str_eq b.user_id user && str_eq b.asset asset
    then record b { locked = b.locked -ℤ pos amount; available = b.available +ℤ pos amount }
    else b

unfoldable pub release : String → String → ℕ → List Account → List Account
release user asset amount = map (give_back user asset amount)

abbrev pub first_piece : List String → String
first_piece [] = "BTC"
first_piece (piece ∷ pieces) = piece

-- The asset and the amount that a cancelled order gives back.
unfoldable pub refund : (Decimal → Quantity → ℕ) → Order → String × ℕ
refund cost o = elim o.side [
  | Side.buy ↦ ("USDT", cost (price_or_zero o.price) o.remaining)
  | Side.sell ↦ (first_piece (split_dash o.pair_id), o.remaining)
]

-- The order that is handed to remove_order_from_book.
abbrev pub to_remove : DateTime → String → Uuid → Order → Order
to_remove now user_id order_id row = record {
  id = order_id;
  user_id = user_id;
  pair_id = row.pair_id;
  side = row.side;
  order_type = OrderType.limit;
  tif = TimeInForce.gtc;
  price = row.price;
  quantity = row.remaining;
  remaining = row.remaining;
  status = OrderStatus.cancelled;
  stp_mode = SelfTradePreventionMode.none;
  version = pos 1;
  sequence = pos 0;
  created_at = now;
  updated_at = now;
  client_order_id = none;
  received_at = none;
  matched_at = none;
  persisted_at = none;
}

-- SELECT .. WHERE user_id = $1 [AND pair_id = $2] AND status IN ('New', 'PartiallyFilled').
abbrev pub in_pair : Option String → String → Bool
in_pair none pair = true
in_pair (some p) pair = str_eq pair p

abbrev pub is_wanted : String → Option String → Order → Bool
is_wanted user pair_id o = str_eq o.user_id user && (in_pair pair_id o.pair_id && is_open o.status)

unfoldable pub open_orders : String → Option String → List Order → List Uuid
open_orders user pair_id [] = []
open_orders user pair_id (o ∷ rows) =
    let rest = open_orders user pair_id rows in
    if is_wanted user pair_id o then o.id ∷ rest else rest

-- Where the replacement of an order is queued.
unfoldable pub queue_of : Option String → String
queue_of none = "queue:orders"
queue_of (some pair_id) = append "queue:orders:" pair_id

module _ (v : Valkey) (ctx : Context) where
  open v use {Db}

  -- The queues hold what was pushed, the newest first.
  pub record World : Type 0 where
    pub db : Db
    pub orders : List Order
    pub accounts : List Account
    pub queues : List (String × Payload)

  -- Steps 2 to 4, for a row that was found and is open.
  unfoldable pub cancel_found : Uuid → String → Order → World → World
  cancel_found order_id user_id row w =
      let (asset, amount) = refund ctx.cost row in
      record w {
        db =
            remove_order_from_book v ctx.crates (to_remove ctx.crates.now user_id order_id row)
              w.db;
        orders = cancel_rows order_id ctx.crates.now w.orders;
        accounts = release user_id asset amount w.accounts;
      }

  -- An order that is not found or not open is left alone.
  unfoldable pub cancel_by_id : Uuid → String → World → World
  cancel_by_id order_id user_id w = elim (find_row order_id user_id w.orders) [
    | none ↦ w
    | some row ↦ if is_open row.status then cancel_found order_id user_id row w else w
  ]

  -- The branch "cancel".
  unfoldable pub cancel : Option String → Option String → World → Reply × World
  cancel none user_id w = (some CancelError.missing_order_id, w)
  cancel (some text) user_id w = elim (ctx.crates.parse_uuid text) [
    | none ↦ (some CancelError.invalid_order_id, w)
    | some order_id ↦ (none, cancel_by_id order_id (or_else user_id "") w)
  ]

  unfoldable pub queue_replacement : Option Replacement → World → World
  queue_replacement none w = w
  queue_replacement (some r) w = record w {
    queues = (queue_of r.pair_id, Payload.replacement r) ∷ w.queues;
  }

  -- An error of the cancellation ends the call.
  unfoldable pub then_queue : Option Replacement → Reply × World → Reply × World
  then_queue r (some e, w) = (some e, w)
  then_queue r (none, w) = (none, queue_replacement r w)

  -- The branch "modify".
  unfoldable pub modify : Cancellation → World → Reply × World
  modify c w = elim c.order_id [
    | none ↦ (some CancelError.missing_order_id, w)
    | some text ↦ then_queue c.new_order (cancel (some text) (some (or_else c.user_id "")) w)
  ]

  -- The cancellation of each of the orders; an error is logged only.
  unfoldable pub cancel_each : String → List Uuid → World → World
  cancel_each user_id [] w = w
  cancel_each user_id (id ∷ ids) w =
      cancel_each user_id ids (cancel (some (ctx.crates.uuid_to_string id)) (some user_id) w).1

  -- The branch "cancel_all".
  unfoldable pub cancel_all : Cancellation → World → Reply × World
  cancel_all c w =
      let user_id = or_else c.user_id "user-1" in
      (none, cancel_each user_id (open_orders user_id c.pair_id w.orders) w)

  -- A request of an unknown type changes nothing.
  unfoldable pub process_as : String → Cancellation → World → Reply × World
  process_as type c w =
      if str_eq type "cancel"
      then cancel c.order_id c.user_id w
      else if str_eq type "modify"
      then modify c w
      else if str_eq type "cancel_all"
      then cancel_all c w
      else (none, w)

  unfoldable pub process_cancellation : Cancellation → World → Reply × World
  process_cancellation c w = process_as (or_else c.type "cancel") c w
