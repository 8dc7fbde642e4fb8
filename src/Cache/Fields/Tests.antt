-- ===== src/Cache/Fields/Tests.antt =====
-- The crates at concrete functions, and the theorems on numbers and hashes at inputs.
use serverless_matching_engi.Prelude.{◌+◌, ◌*◌, ◌/◌, none, some, map, ◌≡◌, refl, arith}
use serverless_matching_engi.Prelude.Int.{pos, pos_part}
use serverless_matching_engi.Text.{
  print_i64, parse_i64, print_digits, parse_digits, parse_magnitude,
}
use serverless_matching_engi.Types.{
  Order, Side, OrderType, TimeInForce, OrderStatus, SelfTradePreventionMode,
}
use serverless_matching_engi.Cache.Scale.{unit}
use serverless_matching_engi.Cache.Crates.{Crates}
use serverless_matching_engi.Cache.Fields.{order_fields, parse_order_from_hmget}
use serverless_matching_engi.Cache.Fields.RoundTrip.{as_stored, parse_order_from_hmget-order_fields}

-- Ids are printed in decimal digits, and a time is a number of milliseconds.
abbrev pub crates : Crates
crates = record {
  uuid_to_string = λ id. print_i64 (pos id);
  parse_uuid = λ s. elim (parse_i64 s) [ none ↦ none | some i ↦ some (pos_part i) ];
  timestamp_millis = λ t. pos t;
  timestamp_opt = λ s n. some (pos_part s * 1000 + n / 1000000);
  now = 0;
}

abbrev pub seller : Order
seller = record {
  id = 11;
  user_id = "user-2";
  pair_id = "BTC-USDT";
  side = Side.sell;
  order_type = OrderType.limit;
  tif = TimeInForce.gtc;
  price = some (pos (100 * unit));
  quantity = 3 * unit;
  remaining = 2 * unit + 1;
  status = OrderStatus.partially_filled;
  stp_mode = SelfTradePreventionMode.none;
  version = pos 2;
  sequence = pos 0;
  created_at = 1700;
  updated_at = 1800;
  client_order_id = none;
  received_at = none;
  matched_at = none;
  persisted_at = none;
}

print_id : parse_i64 (print_i64 (pos 11)) ≡ some (pos 11)
unfolding print_i64 parse_i64 print_digits parse_digits parse_magnitude
print_id = refl

parse_order_from_hmget-order_fields_example :
    parse_order_from_hmget crates (map (λ v. some v) (order_fields crates seller))
    ≡ some (as_stored 1700 seller)
unfolding print_i64 parse_i64 print_digits parse_digits parse_magnitude
parse_order_from_hmget-order_fields_example =
    parse_order_from_hmget-order_fields crates seller 1700 1700 refl refl refl refl (omega arith)
      refl
