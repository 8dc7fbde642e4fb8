-- ===== src/Gateway/Orders/Tests.antt =====
-- A request that is handled, with numbers printed in unary.
use Prim.Native.Char.{code}
use serverless_matching_engi.Prelude.{ℕ, String, Option, none, some, [], ◌==◌, if◌then◌else◌}
use serverless_matching_engi.Prelude.Int.{ℤ, pos, negsuc}
use serverless_matching_engi.Prelude.Unary.{unary, count}
use serverless_matching_engi.Types.{Side, OrderType, TimeInForce}
use serverless_matching_engi.Worker.Message.{QueuedOrderMsg, Parsers}
use serverless_matching_engi.Gateway.Orders.{Printers, CreateOrderRequest, World}

abbrev pub write : ℤ → String
write (pos n) = String.◌∷◌ "+" (unary n)
write (negsuc n) = String.◌∷◌ "-" (unary n)

abbrev pub read : String → Option ℤ
read String.[] = none
read (String.◌∷◌ c s) = if code c == b'-' then some (negsuc (count s)) else some (pos (count s))

abbrev pub printers : Printers
printers = record { uuid_to_string = λ id. "id-3"; decimal_to_string = write; to_rfc3339 = unary }

abbrev pub parsers : Parsers
parsers = record {
  decimal_from_str = read;
  parse_uuid = λ s. some 3;
  new_uuid = 7;
  parse_from_rfc3339 = λ s. some (count s);
  now = 6;
}

abbrev pub request : CreateOrderRequest
request = record {
  user_id = some "alice";
  pair_id = "BTC-USDT";
  side = Side.sell;
  order_type = OrderType.limit;
  tif = some TimeInForce.ioc;
  price = some (pos 4);
  quantity = pos 2;
  stp_mode = none;
  client_order_id = none;
}

abbrev no_process : QueuedOrderMsg → ℕ → ℕ
no_process msg n = n

abbrev world : World ℕ
world = record { queues = []; state = 0 }
