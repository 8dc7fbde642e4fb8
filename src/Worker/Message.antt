-- ===== src/Worker/Message.antt =====
-- The first part of process_order and validate_order of crates/gateway/src/worker.rs: from the
-- message to an order, with every check.
--
-- The decoded JSON comes as a record; Decimal::from_str, Uuid::parse_str and parse_from_rfc3339
-- are parameters. A tracing line changes nothing and is left out.
pub mod Laws
mod Tests
use serverless_matching_engi.Prelude.{
  ℕ, suc, ◌%◌, String, Bool, true, false, Option, none, some, ltb, ◌==◌, ◌||◌, ◌&&◌, not,
  if◌then◌else◌, str_eq,
}
use serverless_matching_engi.Prelude.Int.{ℤ, pos, negsuc, pos_part, neg_part, ltb_ℤ, leb_ℤ}
use serverless_matching_engi.Types.{
  Order, Side, OrderType, TimeInForce, OrderStatus, SelfTradePreventionMode, Uuid, DateTime,
  Decimal, Quantity,
}

-- QueuedOrderMsg, after serde has filled in the defaults.
pub record QueuedOrderMsg : Type 0 where
  pub id : Option String
  pub user_id : String
  pub pair_id : String
  pub side : String
  pub order_type : String
  pub tif : String
  pub price : Option String
  pub quantity : String
  pub stp_mode : Option String
  pub client_order_id : Option String
  pub created_at : Option String
  pub received_at : Option String
  pub time_in_force : Option String

pub record Parsers : Type 0 where
  pub decimal_from_str : String → Option Decimal
  pub parse_uuid : String → Option Uuid
  pub new_uuid : Uuid
  pub parse_from_rfc3339 : String → Option DateTime
  pub now : DateTime

pub record PairConfig : Type 0 where
  pub tick_size : Decimal
  pub lot_size : Decimal
  pub min_order_size : Decimal
  pub max_order_size : Decimal
  pub active : Bool

pub data Error : Type 0 where
  invalid_order_id invalid_side invalid_order_type invalid_quantity quantity_not_positive : Error
  limit_requires_price market_with_price : Error
  unknown_pair pair_inactive lot_misaligned out_of_range tick_misaligned remainder_by_zero : Error

pub data Result {ℓ} (T : Type ℓ) : Type ℓ where
  err : Error → Result T
  ok : T → Result T

-- The `?` of the source, and a check whose value is not used.
infixl 5 ◌>>=◌ ◌>>◌
abbrev pub ◌>>=◌ {ℓ ℓ'} : {T : Type ℓ} {U : Type ℓ'} (r : Result T) (next : T → Result U) → Result U
err bad >>= next = err bad
ok t >>= next = next t

abbrev pub ◌>>◌ {ℓ} : {U : Type ℓ} (check : Result (Unit {0})) (next : Result U) → Result U
err bad >> next = err bad
ok done >> next = next

-- `bail!` if the test holds.
abbrev pub bail_if : Bool → Error → Result (Unit {0})
bail_if true e = err e
bail_if false e = ok tt

abbrev pub or_fail {ℓ} : {T : Type ℓ} (found : Option T) (bad : Error) → Result T
or_fail (some t) bad = ok t
or_fail none bad = err bad

abbrev pub or_else {ℓ} : {A : Type ℓ} → Option A → A → A
or_else none d = d
or_else (some a) d = a

abbrev pub and_then {ℓ κ} : {A : Type ℓ} {B : Type κ} → Option A → (A → Option B) → Option B
and_then none f = none
and_then (some a) f = f a

abbrev pub is_none {ℓ} : {A : Type ℓ} → Option A → Bool
is_none none = true
is_none (some a) = false

abbrev pub is_limit : OrderType → Bool
is_limit OrderType.limit = true
is_limit OrderType.market = false

unfoldable pub order_id_of : Parsers → Option String → Result Uuid
order_id_of p none = ok p.new_uuid
order_id_of p (some id) =
    if str_eq id "" then ok p.new_uuid else or_fail (p.parse_uuid id) invalid_order_id

unfoldable pub side_of : String → Result Side
side_of s =
    if str_eq s "Buy"
    then ok Side.buy
    else if str_eq s "Sell"
    then ok Side.sell
    else err invalid_side

unfoldable pub order_type_of : String → Result OrderType
order_type_of s =
    if str_eq s "Limit"
    then ok OrderType.limit
    else if str_eq s "Market"
    then ok OrderType.market
    else err invalid_order_type

-- Anything else counts as GTC.
unfoldable pub tif_of : String → TimeInForce
tif_of s =
    if str_eq s "GTC"
    then TimeInForce.gtc
    else if str_eq s "IOC"
    then TimeInForce.ioc
    else if str_eq s "FOK"
    then TimeInForce.fok
    else TimeInForce.gtc

-- Anything else counts as none.
unfoldable pub stp_of : String → SelfTradePreventionMode
stp_of s =
    if str_eq s "CancelMaker"
    then SelfTradePreventionMode.cancel_maker
    else if str_eq s "CancelTaker"
    then SelfTradePreventionMode.cancel_taker
    else if str_eq s "CancelBoth"
    then SelfTradePreventionMode.cancel_both
    else SelfTradePreventionMode.none

-- `a % b` on a Decimal, with the sign of `a`; is it other than zero? A remainder by zero panics.
unfoldable pub misaligned : Decimal → Decimal → Result Bool
misaligned a (pos b) =
    if b == 0
    then err remainder_by_zero
    else ok (not ((pos_part a % b == 0) && (neg_part a % b == 0)))
misaligned a (negsuc b) = ok (not ((pos_part a % suc b == 0) && (neg_part a % suc b == 0)))

-- The price is checked only against a positive tick size.
unfoldable pub check_tick : PairConfig → Option Decimal → Result (Unit {0})
check_tick cfg none = ok tt
check_tick cfg (some price) =
    if ltb_ℤ (pos 0) cfg.tick_size
    then (misaligned price cfg.tick_size >>= λ bad. bail_if bad tick_misaligned)
    else ok tt

-- The checks against the configuration of the order's pair.
unfoldable pub check_config : PairConfig → Order → Result (Unit {0})
check_config cfg order = do
  bail_if (not cfg.active) pair_inactive
  bad ← misaligned (pos order.quantity) cfg.lot_size
  bail_if bad lot_misaligned
  bail_if
      (ltb_ℤ (pos order.quantity) cfg.min_order_size
        || ltb_ℤ cfg.max_order_size (pos order.quantity))
      out_of_range
  check_tick cfg order.price

unfoldable pub validate_order : (String → Option PairConfig) → Order → Result (Unit {0})
validate_order pairs order = do
  cfg ← or_fail (pairs order.pair_id) unknown_pair
  check_config cfg order

-- From the message to the order, up to the validation against the pair.
unfoldable pub read_order : Parsers → QueuedOrderMsg → Result Order
read_order p msg = do
  order_id ← order_id_of p msg.id
  side ← side_of msg.side
  order_type ← order_type_of msg.order_type
  let tif = tif_of (or_else msg.time_in_force msg.tif)
  let stp_mode = stp_of (or_else msg.stp_mode "None")
  let price = and_then msg.price p.decimal_from_str
  quantity ← or_fail (p.decimal_from_str msg.quantity) invalid_quantity
  bail_if (leb_ℤ quantity (pos 0)) quantity_not_positive
  bail_if (is_limit order_type && is_none price) limit_requires_price
  bail_if (not (is_limit order_type) && not (is_none price)) market_with_price
  let created_at = or_else (and_then msg.created_at p.parse_from_rfc3339) p.now
  ok (record {
    id = order_id;
    user_id = msg.user_id;
    pair_id = msg.pair_id;
    side = side;
    order_type = order_type;
    tif = tif;
    price = price;
    quantity = pos_part quantity;
    remaining = pos_part quantity;
    status = OrderStatus.new;
    stp_mode = stp_mode;
    version = pos 1;
    sequence = pos 0;
    created_at = created_at;
    updated_at = p.now;
    client_order_id = msg.client_order_id;
    received_at = some (or_else (and_then msg.received_at p.parse_from_rfc3339) created_at);
    matched_at = none;
    persisted_at = none;
  })
