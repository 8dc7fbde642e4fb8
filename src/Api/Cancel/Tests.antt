-- ===== src/Api/Cancel/Tests.antt =====
-- Two orders and their balances, with one cancelled.
use serverless_matching_engi.Prelude.{ℕ, ◌*◌, none, some, List, [], ◌∷◌, map, ◌≡◌, refl, ap}
use serverless_matching_engi.Prelude.Int.{pos, pos_part}
use serverless_matching_engi.Prelude.Unary.{unary, count, count-unary}
use serverless_matching_engi.Types.{
  Order, Side, OrderType, TimeInForce, OrderStatus, SelfTradePreventionMode, Decimal, Quantity,
}
use serverless_matching_engi.Cache.Crates.{Crates}
use serverless_matching_engi.Cache.Memory.{memory}
use serverless_matching_engi.Gateway.Orders.{
  Printers, Cancellation, cancel_json, modify_json, cancel_all_json,
}
use serverless_matching_engi.Api.Cancel.{Account, Context, World, process_cancellation}
use serverless_matching_engi.Api.Cancel.Money.{SameMoney, process_cancellation-SameMoney}
use serverless_matching_engi.Api.Cancel.Rows.{close_wanted}
use serverless_matching_engi.Api.Cancel.Queue.{
  process_cancellation-cancel_all, process_cancellation-nobody,
}

abbrev crates : Crates
crates = record {
  uuid_to_string = unary;
  parse_uuid = λ s. some (count s);
  timestamp_millis = λ t. pos t;
  timestamp_opt = λ s n. none;
  now = 8;
}

abbrev cost : Decimal → Quantity → ℕ
cost price qty = pos_part price * qty

count-some : (id : ℕ) → crates.parse_uuid (crates.uuid_to_string id) ≡ some id
count-some id = ap some (count-unary id)

abbrev context : Context
context = record { crates = crates; cost = cost }

abbrev printers : Printers
printers = record { uuid_to_string = unary; decimal_to_string = λ d. ""; to_rfc3339 = unary }

abbrev bid : Order
bid = record {
  id = 1;
  user_id = "alice";
  pair_id = "BTC-USDT";
  side = Side.buy;
  order_type = OrderType.limit;
  tif = TimeInForce.gtc;
  price = some (pos 4);
  quantity = 6;
  remaining = 5;
  status = OrderStatus.partially_filled;
  stp_mode = SelfTradePreventionMode.none;
  version = pos 1;
  sequence = pos 0;
  created_at = 2;
  updated_at = 3;
  client_order_id = none;
  received_at = none;
  matched_at = none;
  persisted_at = none;
}

abbrev ask : Order
ask = record bid { id = 2; user_id = "bob"; side = Side.sell }

abbrev accounts : List Account
accounts =
    record { user_id = "alice"; asset = "USDT"; available = pos 1; locked = pos 20 }
    ∷ record { user_id = "bob"; asset = "BTC"; available = pos 0; locked = pos 5 }
    ∷ []

abbrev world : World memory context
world = record {
  db = record { entries = []; members = []; texts = [] };
  orders = bid ∷ ask ∷ [];
  accounts = accounts;
  queues = [];
}

abbrev request : Cancellation
request = record {
  type = some "cancel";
  order_id = some "1";
  user_id = some "alice";
  pair_id = none;
  new_order = none;
}

process_cancellation-SameMoney_example :
    SameMoney memory context "alice" world (process_cancellation memory context request world).1
process_cancellation-SameMoney_example = process_cancellation-SameMoney memory context request world

process_cancellation-cancel_all_example :
    (process_cancellation memory context
      (cancel_all_json printers (some "bob") none)
      world).1.orders
    ≡ map (close_wanted "bob" none 8) world.orders
process_cancellation-cancel_all_example =
    process_cancellation-cancel_all memory context count-some printers (some "bob") none world
      ((refl, tt), (tt, tt))

process_cancellation-nobody_example :
    ((process_cancellation memory context (cancel_json printers 1) world).1 ≡ world)
    × ((process_cancellation memory context (modify_json printers 1) world).1 ≡ world)
process_cancellation-nobody_example =
    process_cancellation-nobody memory context printers 1 world (refl, (refl, tt))
