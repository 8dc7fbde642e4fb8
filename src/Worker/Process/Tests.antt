-- ===== src/Worker/Process/Tests.antt =====
-- process_order and its lock at inputs.
use serverless_matching_engi.Prelude.{
  ◌==◌, if◌then◌else◌, length, ◌∷◌, ℕ, ◌+◌, ◌*◌, ◌/◌, ◌<◌, ◌≤◌, String, true, false, none, some, [],
  ◌≡◌, refl, arith, ◌^◌,
}
use serverless_matching_engi.Prelude.Int.{pos, pos_part, ltb_ℤ}
use serverless_matching_engi.Text.{i64_bound}
use serverless_matching_engi.Types.{
  Order, Side, OrderType, TimeInForce, OrderStatus, SelfTradePreventionMode, Decimal,
}
use serverless_matching_engi.Cache.Scale.{unit}
use serverless_matching_engi.Cache.Crates.{Crates}
use serverless_matching_engi.Cache.Memory.{Memory, memory}
use serverless_matching_engi.Cache.Double.{to_double}
use serverless_matching_engi.Cache.Script.{available_of}
use serverless_matching_engi.Cache.Match.{PairKeys, MatchReply, MatchError, match_order_lua}
use serverless_matching_engi.Worker.Message.{QueuedOrderMsg}
use serverless_matching_engi.Worker.Process.{Context, World, lock_params, process_order}
use serverless_matching_engi.Worker.Views.{JsonPrinters}
use serverless_matching_engi.Worker.Views.Whole.{
  cached_after, is_refreshed, portfolio_at, process_order-portfolio,
}
use serverless_matching_engi.Worker.Process.Rows.{AllGive, HasPrices, process_order-AllGive}
use serverless_matching_engi.Worker.Process.Errors.{Leaves, process_order-Leaves}
use serverless_matching_engi.Worker.Process.Locks.{argv, unlocked, match_order_lua-lock}
use serverless_matching_engi.Worker.Process.{
  persist, after_match, match_and_persist, lock_and_match, dispatch, build_trades,
}
use serverless_matching_engi.Worker.Message.{
  order_id_of, side_of, order_type_of, tif_of, stp_of, misaligned, check_tick, check_config,
  validate_order, read_order,
}
use serverless_matching_engi.Cache.Match.{
  script_keys, script_argv, script_status, parse_trades, parse_result, parse_reply,
}
use serverless_matching_engi.Cache.Script.{
  match_script, lock_balance, finish, result, match_after_lock, match_loop, candidates,
  final_status, trade_texts, tostring,
}
use serverless_matching_engi.Text.{
  print_i64, print_digits, parse_i64, parse_magnitude, parse_digits,
}
use serverless_matching_engi.Cache.Scale.{decimal_to_i64}
use serverless_matching_engi.Types.Pair.{parse_pair_id}
use serverless_matching_engi.Cache.Fields.{status_char}
use serverless_matching_engi.Worker.Persist.{persist_order, all_deltas, release_leftover}
use serverless_matching_engi.Cache.Scale.{i64_to_decimal}

abbrev crates : Crates
crates = record {
  uuid_to_string = λ id. "1";
  parse_uuid = λ s. some 1;
  timestamp_millis = λ t. pos t;
  timestamp_opt = λ s n. none;
  now = 0;
}

abbrev exponent : ℕ → String
exponent n = "1e+14"

abbrev mul : Decimal → Decimal → Decimal
mul a b = pos (pos_part a * pos_part b)

abbrev keys : PairKeys
keys = record {
  bids_key = "book:BTC-USDT:bids";
  asks_key = "book:BTC-USDT:asks";
  version_key = "version:BTC-USDT";
}

-- Nobody has a balance, and nothing is in the book.
abbrev empty : Memory
empty = record { entries = []; members = []; texts = [] }

abbrev buyer : ℕ → Order
buyer qty = record {
  id = 1;
  user_id = "user-1";
  pair_id = "BTC-USDT";
  side = Side.buy;
  order_type = OrderType.limit;
  tif = TimeInForce.gtc;
  price = some (pos 1000);
  quantity = qty;
  remaining = qty;
  status = OrderStatus.new;
  stp_mode = SelfTradePreventionMode.none;
  version = pos 1;
  sequence = pos 0;
  created_at = 0;
  updated_at = 0;
  client_order_id = none;
  received_at = none;
  matched_at = none;
  persisted_at = none;
}

-- A cost of 1000 units of 10^-8, which the buyer does not have.
match_order_lua-lock_example :
    let lock = lock_params mul "BTC" "USDT" (buyer unit) in
    let reply = match_order_lua memory exponent crates (buyer unit) keys lock.0 lock.1 empty in
    let available =
      available_of memory exponent
        (argv memory exponent crates keys (buyer unit) empty lock)
        empty in
    (unit ≤ 1000 * unit
      → 1000 * unit < 2 ^ 53 * unit
      → ltb_ℤ available (pos (1000 * unit / unit)) ≡ true
      → reply ≡ (MatchReply.err MatchError.insufficient_balance, empty))
    × (unit ≤ 1000 * unit
        → 1000 * unit < i64_bound * unit
        → ltb_ℤ (to_double available) (to_double (pos (1000 * unit / unit))) ≡ true
        → reply ≡ (MatchReply.err MatchError.insufficient_balance, empty))
    × (i64_bound * unit ≤ 1000 * unit
        → reply ≡ unlocked memory exponent crates keys (buyer unit) empty lock)
match_order_lua-lock_example =
    match_order_lua-lock memory exponent crates keys (buyer unit) empty mul "BTC" "USDT"
      (1000 * unit) refl refl

abbrev ctx : Context
ctx = record {
  parsers = record {
    decimal_from_str = λ s. some (pos 6);
    parse_uuid = λ s. some 1;
    new_uuid = 77;
    parse_from_rfc3339 = λ s. none;
    now = 9;
  };
  crates = crates;
  new_uuid = λ n. 1000 + n;
  now = 9;
  mul = mul;
  cost = λ p q. pos_part p * q;
  increment = λ n. n;
  pairs_cache = λ id. none;
  pair_keys = λ id. some keys;
  starts_with_warmup = λ id. false;
}

abbrev message : QueuedOrderMsg
message = record {
  id = some "1";
  user_id = "user-1";
  pair_id = "BTC-USDT";
  side = "Buy";
  order_type = "Limit";
  tif = "GTC";
  price = some "100";
  quantity = "6";
  stp_mode = none;
  client_order_id = none;
  created_at = none;
  received_at = none;
  time_in_force = none;
}

abbrev world : World memory exponent ctx
world = record { db = empty; tables = record { orders = []; trades = []; balances = [] } }

process_order-Leaves_example :
    let (out, w') = process_order memory exponent ctx message world in
    Leaves memory exponent ctx world out w'
process_order-Leaves_example = process_order-Leaves memory exponent ctx message world

-- A buyer and a seller with nothing locked.
abbrev funded : World memory exponent ctx
funded = record {
  db = empty;
  tables = record {
    orders = [];
    trades = [];
    balances =
        record { user_id = "user-1"; asset = "USDT"; available = 50; locked = 0 }
        ∷ record { user_id = "user-2"; asset = "BTC"; available = 7; locked = 0 }
        ∷ [];
  };
}

abbrev open_ctx : Context
open_ctx = record ctx {
  pairs_cache = λ id. some (record {
    tick_size = pos 1;
    lot_size = pos 1;
    min_order_size = pos 1;
    max_order_size = pos 100;
    active = true;
  });
}

-- An order that finds nothing to trade with and does not rest.
abbrev at_once : QueuedOrderMsg
at_once = record message { tif = "IOC" }

abbrev funds : World memory exponent open_ctx
funds = record { db = funded.db; tables = funded.tables }

at_once-HasPrices : HasPrices (process_order memory exponent open_ctx at_once funds).0
unfolding persist after_match match_and_persist lock_and_match dispatch lock_params build_trades
    process_order order_id_of side_of order_type_of tif_of stp_of misaligned check_tick check_config
    validate_order read_order script_keys script_argv script_status parse_trades parse_result
    parse_reply match_order_lua match_script lock_balance finish result match_after_lock match_loop
    candidates final_status trade_texts tostring print_i64 print_digits parse_i64 parse_magnitude
    parse_digits decimal_to_i64 parse_pair_id status_char persist_order all_deltas release_leftover
    i64_to_decimal
at_once-HasPrices = (omega arith, tt)

process_order-AllGive_example :
    AllGive funds.tables.balances
      (process_order memory exponent open_ctx at_once funds).1.tables.balances
process_order-AllGive_example =
    process_order-AllGive memory exponent open_ctx at_once funds at_once-HasPrices

abbrev json : JsonPrinters
json = record {
  orderbook = λ pair levels. pair;
  trades = λ pair rows. pair;
  ticker = λ pair ticker. pair;
  portfolio = λ rows. if length rows == 0 then "none" else "some";
}

process_order-portfolio_example :
    let (out, w') = process_order memory exponent open_ctx message funds in
    cached_after json 86400000 9
      ([], [])
      "user-1"
      out
      w'.tables
      (portfolio_at json 86400000 9 ([], []) "user-1" funds.tables)
    ≡ portfolio_at json 86400000 9
        ([], [])
        "user-1"
        (if is_refreshed json 86400000 9 ([], []) "user-1" out then w'.tables else funds.tables)
process_order-portfolio_example =
    process_order-portfolio json 86400000 9 ([], []) "user-1" memory exponent open_ctx message funds
