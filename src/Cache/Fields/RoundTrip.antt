-- ===== src/Cache/Fields/RoundTrip.antt =====
-- An order that is written to its hash and read back.
use serverless_matching_engi.Prelude.{
  ℕ, suc, ◌+◌, ◌*◌, ◌/◌, ◌%◌, ◌^◌, ◌<◌, true, false, ◌||◌, ◌≡◌, refl, Option, none, some, map,
  str_eq, arith, ltb, leb, lt→ltb, if◌then◌else◌,
}
use serverless_matching_engi.Prelude.Int.{ℤ, pos, negsuc, sub_ℕ}
use serverless_matching_engi.Types.{
  Order, OrderStatus, OrderType, Side, TimeInForce, SelfTradePreventionMode, Decimal, Quantity,
  DateTime,
}
use serverless_matching_engi.Text.{print_i64, parse_i64, in_i64, i64_bound}
use serverless_matching_engi.Text.Laws.{parse_i64-print_i64}
use serverless_matching_engi.Cache.Scale.{unit, decimal_to_i64, i64_to_decimal}
use serverless_matching_engi.Cache.Crates.{Crates}
use serverless_matching_engi.Cache.Fields.{
  side_char, order_type_char, tif_char, status_char, stp_char, parse_side, parse_order_type,
  parse_tif, parse_status, parse_stp, price_i, price_of, quantity_of, created_at_of, order_fields,
  parse_fields, parse_order_from_hmget,
}

pub parse_side-side_char : (s : Side) → parse_side (side_char s) ≡ some s
unfolding parse_side side_char
parse_side-side_char Side.buy = refl
parse_side-side_char Side.sell = refl

pub parse_order_type-order_type_char :
    (t : OrderType) → parse_order_type (order_type_char t) ≡ some t
unfolding parse_order_type order_type_char
parse_order_type-order_type_char OrderType.limit = refl
parse_order_type-order_type_char OrderType.market = refl

pub parse_tif-tif_char : (t : TimeInForce) → parse_tif (tif_char t) ≡ some t
unfolding parse_tif tif_char
parse_tif-tif_char TimeInForce.gtc = refl
parse_tif-tif_char TimeInForce.ioc = refl
parse_tif-tif_char TimeInForce.fok = refl

-- The text for `rejected` is that for `cancelled`.
abbrev pub stored_status : OrderStatus → OrderStatus
stored_status OrderStatus.rejected = OrderStatus.cancelled
stored_status s = s

pub parse_status-status_char : (s : OrderStatus) → parse_status (status_char s) ≡ stored_status s
unfolding parse_status status_char
parse_status-status_char OrderStatus.new = refl
parse_status-status_char OrderStatus.partially_filled = refl
parse_status-status_char OrderStatus.filled = refl
parse_status-status_char OrderStatus.cancelled = refl
parse_status-status_char OrderStatus.rejected = refl

pub parse_stp-stp_char : (m : SelfTradePreventionMode) → parse_stp (stp_char m) ≡ m
unfolding parse_stp stp_char
parse_stp-stp_char SelfTradePreventionMode.none = refl
parse_stp-stp_char SelfTradePreventionMode.cancel_taker = refl
parse_stp-stp_char SelfTradePreventionMode.cancel_maker = refl
parse_stp-stp_char SelfTradePreventionMode.cancel_both = refl

decimal_to_i64-in_i64 : (d : ℤ) → in_i64 (decimal_to_i64 d) ≡ true
unfolding decimal_to_i64
decimal_to_i64-in_i64 d = ground arith

-- Every scaled number is read back.
pub parse_i64-scaled : (d : ℤ) → parse_i64 (print_i64 (decimal_to_i64 d)) ≡ some (decimal_to_i64 d)
parse_i64-scaled d = parse_i64-print_i64 (decimal_to_i64 d) (decimal_to_i64-in_i64 d)

parse_i64-price_i : (p : Option ℤ) → parse_i64 (print_i64 (price_i p)) ≡ some (price_i p)
parse_i64-price_i none = parse_i64-print_i64 (pos 0) refl
parse_i64-price_i (some p) = parse_i64-scaled p

-- The whole units of 10^-8 of a number of units of 10^-28.
abbrev pub cut : ℕ → ℕ
cut n = n / unit * unit

-- What is left of a price: nothing of a market order's, of one below 10^-8 and of one that is too
-- large for an `i64` of units of 10^-8.
abbrev pub stored_price : OrderType → Option Decimal → Option Decimal
stored_price OrderType.market p = none
stored_price OrderType.limit none = none
stored_price OrderType.limit (some (pos n)) =
    if ltb n unit || leb (i64_bound * unit) n then none else some (pos (cut n))
stored_price OrderType.limit (some (negsuc n)) =
    if ltb (suc n) unit || leb ((i64_bound + 1) * unit) (suc n)
    then none
    else some (sub_ℕ 0 (cut (suc n)))

abbrev pub stored_quantity : Quantity → Quantity
stored_quantity q = if leb (i64_bound * unit) q then 0 else cut q

-- The order as the hash keeps it, its creation being the time `stamp`.
abbrev pub as_stored : DateTime → Order → Order
as_stored stamp o = record o {
  price = stored_price o.order_type o.price;
  quantity = stored_quantity o.quantity;
  remaining = stored_quantity o.remaining;
  status = stored_status o.status;
  sequence = pos 0;
  created_at = stamp;
  updated_at = stamp;
  client_order_id = none;
  received_at = none;
  matched_at = none;
  persisted_at = none;
}

price_of-price_i : (t : OrderType) (p : Option Decimal) → price_of t (price_i p) ≡ stored_price t p
unfolding decimal_to_i64 i64_to_decimal price_of
price_of-price_i OrderType.market p = refl
price_of-price_i OrderType.limit none = refl
price_of-price_i OrderType.limit (some (pos n)) = ground arith
price_of-price_i OrderType.limit (some (negsuc n)) = ground arith

quantity_of-decimal_to_i64 :
    (q : Quantity) → quantity_of (decimal_to_i64 (pos q)) ≡ stored_quantity q
unfolding decimal_to_i64 i64_to_decimal
quantity_of-decimal_to_i64 q = ground arith

created_at_of-millis :
    (lib : Crates) (ms : ℕ) (stamp : DateTime)
    → lib.timestamp_opt (pos (ms / 1000)) (ms % 1000 * 1000000) ≡ some stamp
    → created_at_of lib (pos ms) ≡ stamp
unfolding created_at_of
created_at_of-millis lib ms stamp e =
    let small : ms % 1000 * 1000000 % 2 ^ 32 ≡ ms % 1000 * 1000000 = omega arith in
    rw (small, e) refl

-- Reading the hash that an order was written to gives the order, with price and quantities cut to
-- 8 places, no price for a market order or a price that is cut to 0, price and quantities gone that
-- do not fit an `i64` of units of 10^-8, `rejected` turned into `cancelled`, the time of its
-- milliseconds as that of creation and of the update, and without the fields that the hash lacks.
-- The crate's text of the id is assumed non-empty and parsed back, the creation to be `ms`
-- milliseconds after 1970, of which the crate makes `stamp` again, and `ms` and the version to fit
-- an `i64`.
pub parse_order_from_hmget-order_fields :
    (lib : Crates) (o : Order) (ms : ℕ) (stamp : DateTime)
    → lib.parse_uuid (lib.uuid_to_string o.id) ≡ some o.id
    → str_eq (lib.uuid_to_string o.id) "" ≡ false
    → in_i64 o.version ≡ true
    → lib.timestamp_millis o.created_at ≡ pos ms
    → ms < i64_bound
    → lib.timestamp_opt (pos (ms / 1000)) (ms % 1000 * 1000000) ≡ some stamp
    → parse_order_from_hmget lib (map (λ v. some v) (order_fields lib o)) ≡ some (as_stored stamp o)
unfolding parse_order_from_hmget order_fields parse_fields
parse_order_from_hmget-order_fields lib o ms stamp u v w t small e = rw (
  v,
  u,
  t,
  parse_side-side_char,
  parse_order_type-order_type_char,
  parse_tif-tif_char,
  parse_i64-price_i o.price,
  parse_i64-scaled (pos o.quantity),
  parse_i64-scaled (pos o.remaining),
  parse_status-status_char,
  parse_stp-stp_char,
  parse_i64-print_i64 (pos ms) (lt→ltb ms i64_bound small),
  parse_i64-print_i64 _ w,
  price_of-price_i o.order_type o.price,
  quantity_of-decimal_to_i64 o.quantity,
  quantity_of-decimal_to_i64 o.remaining,
  created_at_of-millis lib ms stamp e,
)
