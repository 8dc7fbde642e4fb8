-- ===== src/Cache/Seed/Tests.antt =====
-- Seeding from the row of an open order.
use serverless_matching_engi.Prelude.{some, none, [], ◌∷◌, map, ◌≡◌}
use serverless_matching_engi.Prelude.Int.{pos}
use serverless_matching_engi.Prelude.Unary.{unary, count}
use serverless_matching_engi.Types.{
  Order, Side, OrderType, TimeInForce, OrderStatus, SelfTradePreventionMode,
}
use serverless_matching_engi.Cache.Crates.{Crates}
use serverless_matching_engi.Cache.Memory.{Memory, memory}
use serverless_matching_engi.Cache.Seed.{row_of, seed_orderbook_from_pg}
use serverless_matching_engi.Cache.Seed.Laws.{
  resting_by_time, save_all, seed_orderbook_from_pg-row_of,
}

abbrev crates : Crates
crates = record {
  uuid_to_string = unary;
  parse_uuid = λ s. some (count s);
  timestamp_millis = λ t. pos t;
  timestamp_opt = λ s n. none;
  now = 1;
}

abbrev open_bid : Order
open_bid = record {
  id = 2;
  user_id = "dora";
  pair_id = "SOL-USDT";
  side = Side.buy;
  order_type = OrderType.limit;
  tif = TimeInForce.gtc;
  price = some (pos 9);
  quantity = 3;
  remaining = 2;
  status = OrderStatus.partially_filled;
  stp_mode = SelfTradePreventionMode.cancel_both;
  version = pos 2;
  sequence = pos 5;
  created_at = 6;
  updated_at = 7;
  client_order_id = some "x";
  received_at = none;
  matched_at = none;
  persisted_at = none;
}

abbrev filled_ask : Order
filled_ask = record open_bid { id = 4; side = Side.sell; status = OrderStatus.filled }

abbrev empty : Memory
empty = record { entries = []; members = []; texts = [] }

seed_orderbook_from_pg-row_of_example :
    seed_orderbook_from_pg memory crates (map row_of (filled_ask ∷ open_bid ∷ [])) empty
    ≡ save_all memory crates (resting_by_time (filled_ask ∷ open_bid ∷ [])) empty
seed_orderbook_from_pg-row_of_example =
    seed_orderbook_from_pg-row_of memory crates (filled_ask ∷ open_bid ∷ []) empty
