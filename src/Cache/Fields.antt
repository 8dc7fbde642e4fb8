-- ===== src/Cache/Fields.antt =====
-- The hash `order:{id}` of an order: its thirteen fields in the order of ORDER_FIELDS, as
-- save_order_to_book writes them, and parse_order_from_hmget of crates/shared/src/cache.rs.
pub mod RoundTrip
mod Tests
use serverless_matching_engi.Prelude.{
  ℕ, suc, ◌+◌, ◌-◌, ◌*◌, ◌/◌, ◌%◌, ◌^◌, String, Bool, true, false, ◌||◌, Option, none, some, List,
  [], ◌∷◌, str_eq, if◌then◌else◌, ◌==◌,
}
use serverless_matching_engi.Prelude.Int.{ℤ, pos, negsuc, sub_ℕ, neg, pos_part}
use serverless_matching_engi.Types.{
  Side, OrderType, TimeInForce, OrderStatus, SelfTradePreventionMode, Order, Decimal, Quantity,
  DateTime,
}
use serverless_matching_engi.Text.{print_i64, parse_i64}
use serverless_matching_engi.Cache.Scale.{decimal_to_i64, i64_to_decimal}
use serverless_matching_engi.Cache.Crates.{Crates}

unfoldable pub side_char : Side → String
side_char Side.buy = "B"
side_char Side.sell = "S"

unfoldable pub order_type_char : OrderType → String
order_type_char OrderType.limit = "L"
order_type_char OrderType.market = "M"

unfoldable pub tif_char : TimeInForce → String
tif_char TimeInForce.gtc = "G"
tif_char TimeInForce.ioc = "I"
tif_char TimeInForce.fok = "F"

unfoldable pub status_char : OrderStatus → String
status_char OrderStatus.new = "N"
status_char OrderStatus.partially_filled = "PF"
status_char OrderStatus.filled = "F"
status_char OrderStatus.cancelled = "C"
status_char OrderStatus.rejected = "C"

unfoldable pub stp_char : SelfTradePreventionMode → String
stp_char SelfTradePreventionMode.none = "N"
stp_char SelfTradePreventionMode.cancel_maker = "CM"
stp_char SelfTradePreventionMode.cancel_taker = "CT"
stp_char SelfTradePreventionMode.cancel_both = "CB"

-- The scaled price, 0 for an order with no price.
abbrev pub price_i : Option Decimal → ℤ
price_i none = pos 0
price_i (some p) = decimal_to_i64 p

-- The arguments of HSET for an order, by field.
unfoldable pub order_fields : Crates → Order → List String
order_fields lib o =
    lib.uuid_to_string o.id
    ∷ o.pair_id
    ∷ side_char o.side
    ∷ order_type_char o.order_type
    ∷ tif_char o.tif
    ∷ print_i64 (price_i o.price)
    ∷ print_i64 (decimal_to_i64 (pos o.quantity))
    ∷ print_i64 (decimal_to_i64 (pos o.remaining))
    ∷ status_char o.status
    ∷ stp_char o.stp_mode
    ∷ o.user_id
    ∷ print_i64 (lib.timestamp_millis o.created_at)
    ∷ print_i64 o.version
    ∷ []

infixl 5 ◌>>=◌
abbrev pub ◌>>=◌ {ℓ ℓ'} :
    {T : Type ℓ} {U : Type ℓ'} (found : Option T) (next : T → Option U) → Option U
none >>= next = none
some t >>= next = next t

pub parse_side : String → Option Side
parse_side s = if str_eq s "B" then some Side.buy else if str_eq s "S" then some Side.sell else none

pub parse_order_type : String → Option OrderType
parse_order_type s =
    if str_eq s "L"
    then some OrderType.limit
    else if str_eq s "M"
    then some OrderType.market
    else none

pub parse_tif : String → Option TimeInForce
parse_tif s =
    if str_eq s "G"
    then some TimeInForce.gtc
    else if str_eq s "I"
    then some TimeInForce.ioc
    else if str_eq s "F"
    then some TimeInForce.fok
    else none

-- An unknown status counts as new, an unknown mode as none.
pub parse_status : String → OrderStatus
parse_status s =
    if str_eq s "N"
    then OrderStatus.new
    else if str_eq s "PF"
    then OrderStatus.partially_filled
    else if str_eq s "F"
    then OrderStatus.filled
    else if str_eq s "C"
    then OrderStatus.cancelled
    else OrderStatus.new

unfoldable pub parse_stp : String → SelfTradePreventionMode
parse_stp s =
    if str_eq s "N"
    then SelfTradePreventionMode.none
    else if str_eq s "CM"
    then SelfTradePreventionMode.cancel_maker
    else if str_eq s "CT"
    then SelfTradePreventionMode.cancel_taker
    else if str_eq s "CB"
    then SelfTradePreventionMode.cancel_both
    else SelfTradePreventionMode.none

abbrev or_text : Option String → String → String
or_text none d = d
or_text (some s) d = s

abbrev or_int : Option ℤ → ℤ → ℤ
or_int none d = d
or_int (some i) d = i

-- `/` and `%` on `i64` cut towards zero.
abbrev quotient : ℤ → ℕ → ℤ
quotient (pos n) m = pos (n / m)
quotient (negsuc n) m = sub_ℕ 0 (suc n / m)

abbrev remainder : ℤ → ℕ → ℤ
remainder (pos n) m = pos (n % m)
remainder (negsuc n) m = sub_ℕ 0 (suc n % m)

-- `((ts_ms % 1000) * 1_000_000) as u32`
abbrev nanos_u32 : ℤ → ℕ
nanos_u32 (pos n) = n * 1000000 % 2 ^ 32
nanos_u32 (negsuc n) = (2 ^ 32 - suc n * 1000000 % 2 ^ 32) % 2 ^ 32

abbrev or_now : Option DateTime → DateTime → DateTime
or_now none now = now
or_now (some t) now = t

pub created_at_of : Crates → ℤ → DateTime
created_at_of lib ts_ms =
    or_now (lib.timestamp_opt (quotient ts_ms 1000) (nanos_u32 (remainder ts_ms 1000))) lib.now

abbrev is_zero : ℤ → Bool
is_zero (pos n) = n == 0
is_zero (negsuc n) = false

-- No price for a market order or a scaled price of 0.
pub price_of : OrderType → ℤ → Option Decimal
price_of OrderType.market i = none
price_of OrderType.limit i = if is_zero i then none else some (i64_to_decimal i)

-- A scaled quantity. A negative one, which no part of the program writes, reads as 0.
abbrev pub quantity_of : ℤ → Quantity
quantity_of i = pos_part (i64_to_decimal i)

-- The thirteen values of HMGET, of which the id, the price and the version may be missing in the
-- source's own ways: no id means no order, no price means "0", no version means "1".
unfoldable pub parse_fields :
    Crates
    → (id pair_id side order_type tif price qty remaining status stp user_id ts version : Option
        String)
    → Option Order
parse_fields lib id pair_id side order_type tif price qty remaining status stp user_id ts version =
    do
      id_str ← id
      id' ← (if str_eq id_str "" then none else lib.parse_uuid id_str)
      pair_id' ← pair_id
      side' ← side >>= parse_side
      order_type' ← order_type >>= parse_order_type
      tif' ← tif >>= parse_tif
      price' ← parse_i64 (or_text price "0")
      qty' ← qty >>= parse_i64
      remaining' ← remaining >>= parse_i64
      status' ← status
      stp' ← stp
      user_id' ← user_id
      ts' ← ts >>= parse_i64
      some (record {
        id = id';
        user_id = user_id';
        pair_id = pair_id';
        side = side';
        order_type = order_type';
        tif = tif';
        price = price_of order_type' price';
        quantity = quantity_of qty';
        remaining = quantity_of remaining';
        status = parse_status status';
        stp_mode = parse_stp stp';
        version = or_int (parse_i64 (or_text version "1")) (pos 1);
        sequence = pos 0;
        created_at = created_at_of lib ts';
        updated_at = created_at_of lib ts';
        client_order_id = none;
        received_at = none;
        matched_at = none;
        persisted_at = none;
      })

-- `none` for fewer than thirteen values.
unfoldable pub parse_order_from_hmget : Crates → List (Option String) → Option Order
parse_order_from_hmget lib (a ∷ b ∷ c ∷ d ∷ e ∷ f ∷ g ∷ h ∷ i ∷ j ∷ k ∷ l ∷ m ∷ rest) =
    parse_fields lib a b c d e f g h i j k l m
parse_order_from_hmget lib _ = none
