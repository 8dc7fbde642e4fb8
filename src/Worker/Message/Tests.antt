-- ===== src/Worker/Message/Tests.antt =====
-- A message and a pair at which the checks of process_order are run.
use serverless_matching_engi.Prelude.{String, Option, none, some, true, ◌≡◌, refl, ◌↔◌}
use serverless_matching_engi.Prelude.Int.{pos, pos_part}
use serverless_matching_engi.Types.{
  Order, Side, OrderType, TimeInForce, OrderStatus, SelfTradePreventionMode,
}
use serverless_matching_engi.Text.{parse_i64, parse_digits, parse_magnitude}
use serverless_matching_engi.Worker.Message.{
  QueuedOrderMsg, Parsers, PairConfig, ok, read_order, validate_order, order_id_of, side_of,
  order_type_of, tif_of, stp_of,
}
use serverless_matching_engi.Worker.Message.Laws.{IsAcceptable, validate_order_iff}

abbrev pub parsers : Parsers
parsers = record {
  decimal_from_str = parse_i64;
  parse_uuid = λ s. elim (parse_i64 s) [ none ↦ none | some i ↦ some (pos_part i) ];
  new_uuid = 77;
  parse_from_rfc3339 = λ s. some 5;
  now = 9;
}

abbrev pub message : QueuedOrderMsg
message = record {
  id = some "1";
  user_id = "user-1";
  pair_id = "BTC-USDT";
  side = "Buy";
  order_type = "Limit";
  tif = "GTC";
  price = some "100";
  quantity = "6";
  stp_mode = some "CancelBoth";
  client_order_id = none;
  created_at = none;
  received_at = none;
  time_in_force = some "IOC";
}

abbrev order : Order
order = record {
  id = 1;
  user_id = "user-1";
  pair_id = "BTC-USDT";
  side = Side.buy;
  order_type = OrderType.limit;
  tif = TimeInForce.ioc;
  price = some (pos 100);
  quantity = 6;
  remaining = 6;
  status = OrderStatus.new;
  stp_mode = SelfTradePreventionMode.cancel_both;
  version = pos 1;
  sequence = pos 0;
  created_at = 9;
  updated_at = 9;
  client_order_id = none;
  received_at = some 9;
  matched_at = none;
  persisted_at = none;
}

-- `time_in_force` comes before `tif`.
reads : read_order parsers message ≡ ok order
unfolding read_order order_id_of side_of order_type_of tif_of stp_of parse_i64 parse_digits
    parse_magnitude
reads = refl

abbrev pairs : String → Option PairConfig
pairs id = some (record {
  tick_size = pos 5;
  lot_size = pos 2;
  min_order_size = pos 2;
  max_order_size = pos 50;
  active = true;
})

validate_order_iff_example :
    (validate_order pairs order ≡ ok tt)
    ↔ ((cfg : PairConfig) × (pairs order.pair_id ≡ some cfg) × IsAcceptable cfg order)
validate_order_iff_example = validate_order_iff pairs order
