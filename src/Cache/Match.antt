-- ===== src/Cache/Match.antt =====
-- match_order_lua of crates/shared/src/cache.rs: the arguments of the script, and its reply.
-- The reply is the list of texts that redis_value_to_string gives for the items of the array.
pub mod Reply
mod Tests
use serverless_matching_engi.Prelude.{
  ℕ, zero, suc, ◌+◌, ◌*◌, String, Bool, true, false, Option, none, some, List, [], ◌∷◌, ltb, str_eq,
  if◌then◌else◌, length,
}
use serverless_matching_engi.Prelude.Int.{ℤ, pos, negsuc, neg, pos_part}
use serverless_matching_engi.Types.{Order, Side, OrderStatus, Uuid, Decimal, Quantity}
use serverless_matching_engi.Text.{print_i64, parse_i64}
use serverless_matching_engi.Cache.Scale.{decimal_to_i64, i64_to_decimal}
use serverless_matching_engi.Cache.Crates.{Crates}
use serverless_matching_engi.Cache.Fields.{price_i, quantity_of}
use serverless_matching_engi.Cache.Valkey.{Valkey, Bound}
use serverless_matching_engi.Cache.Script.{Keys, Argv, match_script}
use Prim.Native.String.{◌++◌ as append}

-- PairKeys, computed once for each pair.
pub record PairKeys : Type 0 where
  pub bids_key : String
  pub asks_key : String
  pub version_key : String

unfoldable pub pair_keys : String → PairKeys
pair_keys pair_id = record {
  bids_key = append "book:" (append pair_id ":bids");
  asks_key = append "book:" (append pair_id ":asks");
  version_key = append "version:" pair_id;
}

pub record LuaTrade : Type 0 where
  pub resting_order_id : Uuid
  pub price : Decimal
  pub quantity : Quantity
  pub buyer_id : String
  pub seller_id : String

pub record LuaMatchResult : Type 0 where
  pub remaining : Quantity
  pub status : OrderStatus
  pub trades : List LuaTrade

pub data MatchError : Type 0 where
  insufficient_balance too_few_fields script_error unknown_status too_few_items bad_trade :
      MatchError

pub data MatchReply : Type 0 where
  ok : LuaMatchResult → MatchReply
  err : MatchError → MatchReply

-- The score of an order in its book: bids are kept by the negated price.
abbrev pub book_score : Side → ℤ → ℤ
book_score Side.buy price = neg price
book_score Side.sell price = price

-- The bound up to which resting orders are fetched.
abbrev pub max_score : Side → Option Decimal → Bound
max_score side none = Bound.plus_inf
max_score Side.buy (some price) = Bound.at (decimal_to_i64 price)
max_score Side.sell (some price) = Bound.at (neg (decimal_to_i64 price))

unfoldable pub script_keys : Crates → PairKeys → Order → Keys
script_keys lib keys order = record {
  bids_key = keys.bids_key;
  asks_key = keys.asks_key;
  version_key = keys.version_key;
  order_key = append "order:" (lib.uuid_to_string order.id);
}

unfoldable pub script_argv : Crates → Order → String → ℤ → Argv
script_argv lib order lock_asset lock_amount_scaled = record {
  order_id = lib.uuid_to_string order.id;
  side = order.side;
  order_type = order.order_type;
  tif = order.tif;
  price_i = price_i order.price;
  qty_i = pos_part (decimal_to_i64 (pos order.quantity));
  user_id = order.user_id;
  stp_mode = order.stp_mode;
  ts_ms = print_i64 (lib.timestamp_millis order.created_at);
  pair_id = order.pair_id;
  score = book_score order.side (price_i order.price);
  max_score = max_score order.side order.price;
  lock_asset = lock_asset;
  lock_amount = lock_amount_scaled;
}

-- `.and_then(|s| s.parse().ok()).unwrap_or(0)` into an `i64` and into a `usize`.
abbrev pub parse_or_zero : String → ℤ
parse_or_zero s = elim (parse_i64 s) [ none ↦ pos 0 | some i ↦ i ]

abbrev pub count_or_zero : String → ℕ
count_or_zero s = pos_part (parse_or_zero s)

unfoldable pub script_status : String → Option OrderStatus
script_status s =
    if str_eq s "N"
    then some OrderStatus.new
    else if str_eq s "PF"
    then some OrderStatus.partially_filled
    else if str_eq s "F"
    then some OrderStatus.filled
    else if str_eq s "C"
    then some OrderStatus.cancelled
    else none

unfoldable pub parse_trade : Crates → String → String → String → String → String → Option LuaTrade
parse_trade lib resting price qty buyer seller = elim (lib.parse_uuid resting) [
  | none ↦ none
  | some id ↦ elim (parse_i64 price) [
    | none ↦ none
    | some p ↦ elim (parse_i64 qty) [
      | none ↦ none
      | some q ↦ some (record {
        resting_order_id = id;
        price = i64_to_decimal p;
        quantity = quantity_of q;
        buyer_id = buyer;
        seller_id = seller;
      })
    ]
  ]
]

abbrev pub push_trade : Option LuaTrade → Option (List LuaTrade) → Option (List LuaTrade)
push_trade none ts = none
push_trade (some t) none = none
push_trade (some t) (some ts) = some (t ∷ ts)

-- `trade_count` trades of five items each.
unfoldable pub parse_trades : Crates → ℕ → List String → Option (List LuaTrade)
parse_trades lib zero items = some []
parse_trades lib (suc n) (a ∷ b ∷ c ∷ d ∷ e ∷ items) =
    push_trade (parse_trade lib a b c d e) (parse_trades lib n items)
parse_trades lib (suc n) _ = none

-- The items behind "OK".
unfoldable pub parse_result : Crates → String → String → String → List String → MatchReply
parse_result lib remaining status count items = elim (script_status status) [
  | none ↦ err unknown_status
  | some s ↦
      if ltb (length items) (count_or_zero count * 5)
      then err too_few_items
      else elim (parse_trades lib (count_or_zero count) items) [
        | none ↦ err bad_trade
        | some trades ↦ ok (record {
          remaining = quantity_of (parse_or_zero remaining);
          status = s;
          trades = trades;
        })
      ]
]

unfoldable pub parse_reply : Crates → List String → MatchReply
parse_reply lib [] = err too_few_fields
parse_reply lib (first ∷ remaining ∷ status ∷ count ∷ items) =
    if str_eq first "INSUFFICIENT_BALANCE"
    then err insufficient_balance
    else if str_eq first "OK"
    then parse_result lib remaining status count items
    else err script_error
parse_reply lib (first ∷ _) =
    if str_eq first "INSUFFICIENT_BALANCE" then err insufficient_balance else err too_few_fields

-- The result, and the database after the script.
unfoldable pub match_order_lua :
    (v : Valkey) → (ℕ → String) → Crates → Order → PairKeys → String → ℤ → v.Db → MatchReply × v.Db
match_order_lua v exponent_form lib order keys lock_asset lock_amount_scaled db =
    let (reply, db') =
      match_script v exponent_form (script_keys lib keys order)
        (script_argv lib order lock_asset lock_amount_scaled) db in
    (parse_reply lib reply, db')
