-- ===== src/Api/Orders/Tests.antt =====
-- process_queued_order at an input.
use serverless_matching_engi.Prelude.{ℕ, ◌+◌, ◌*◌, String, true, false, none, some, []}
use serverless_matching_engi.Prelude.Int.{pos, pos_part}
use serverless_matching_engi.Types.{
  Order, Side, OrderType, TimeInForce, OrderStatus, SelfTradePreventionMode, Decimal,
}
use serverless_matching_engi.Cache.Crates.{Crates}
use serverless_matching_engi.Cache.Memory.{Memory, memory}
use serverless_matching_engi.Cache.Match.{PairKeys}
use serverless_matching_engi.Worker.Process.{Context}
use serverless_matching_engi.Metrics.{fresh}
use serverless_matching_engi.Worker.Persist.{Tables}
use serverless_matching_engi.Api.Orders.Reading.{QueuedOrderMsg}
use serverless_matching_engi.Api.Orders.Handing.{Limits, Queues}
use serverless_matching_engi.Api.Orders.{World, process_queued_order}
use serverless_matching_engi.Api.Orders.Handover.{Hands, process_queued_order-Hands}

abbrev crates : Crates
crates = record {
  uuid_to_string = λ id. "1";
  parse_uuid = λ s. some 1;
  timestamp_millis = λ t. pos t;
  timestamp_opt = λ s n. none;
  now = 0;
}

abbrev exponent : ℕ → String
exponent n = "1e+14"

abbrev mul : Decimal → Decimal → Decimal
mul a b = pos (pos_part a * pos_part b)

abbrev keys : PairKeys
keys = record {
  bids_key = "book:BTC-USDT:bids";
  asks_key = "book:BTC-USDT:asks";
  version_key = "version:BTC-USDT";
}

-- Nobody has a balance, and nothing is in the book.
abbrev empty : Memory
empty = record { entries = []; members = []; texts = [] }

abbrev ctx : Context
ctx = record {
  parsers = record {
    decimal_from_str = λ s. some (pos 6);
    parse_uuid = λ s. some 1;
    new_uuid = 77;
    parse_from_rfc3339 = λ s. none;
    now = 9;
  };
  crates = crates;
  new_uuid = λ n. 1000 + n;
  now = 9;
  mul = mul;
  cost = λ p q. pos_part p * q;
  increment = λ n. n;
  pairs_cache = λ id. some (record {
    tick_size = pos 1;
    lot_size = pos 1;
    min_order_size = pos 1;
    max_order_size = pos 100;
    active = true;
  });
  pair_keys = λ id. some keys;
  starts_with_warmup = λ id. false;
}

abbrev message : QueuedOrderMsg
message = record {
  id = "1";
  user_id = "user-1";
  pair_id = "BTC-USDT";
  side = "Sell";
  order_type = "Limit";
  tif = "GTC";
  price = some "100";
  quantity = "6";
  stp_mode = none;
  client_order_id = none;
  created_at = none;
  received_at = none;
}

abbrev limits : Limits
limits = record { jobs = 1000; users = 10000; listened = true; match_ms = 2 }

abbrev queues : Queues
queues = record {
  jobs = [];
  direct = [];
  dirty_users = [];
  dirty_pairs = [];
  metrics = record { btc = fresh; eth = fresh; sol = fresh };
  events = [];
}

abbrev tables : Tables
tables = record { orders = []; trades = []; balances = [] }

abbrev world : World memory exponent ctx limits
world = record { db = empty; queues = queues }

abbrev order : Order
order = record {
  id = 1;
  user_id = "user-1";
  pair_id = "BTC-USDT";
  side = Side.sell;
  order_type = OrderType.limit;
  tif = TimeInForce.gtc;
  price = some (pos 6);
  quantity = 6;
  remaining = 6;
  status = OrderStatus.new;
  stp_mode = SelfTradePreventionMode.none;
  version = pos 1;
  sequence = pos 0;
  created_at = 9;
  updated_at = 9;
  client_order_id = none;
  received_at = some 9;
  matched_at = none;
  persisted_at = none;
}

process_queued_order-Hands_example :
    let (out, w') = process_queued_order memory exponent ctx limits message world in
    Hands limits queues out w'.queues
process_queued_order-Hands_example =
    process_queued_order-Hands memory exponent ctx limits message world
