-- ===== src/Api/Orders/Reading.antt =====
-- The first part of process_queued_order of crates/api/src/worker.rs, and validate_order_request
-- of crates/api/src/routes.rs: from the message to an order. The texts of the enums are read as in
-- the gateway's worker.
use serverless_matching_engi.Prelude.{String, ◌||◌, Option, none, some, if◌then◌else◌, not}
use serverless_matching_engi.Prelude.Int.{pos, pos_part, ltb_ℤ}
use serverless_matching_engi.Types.{Order, OrderStatus, Decimal}
use serverless_matching_engi.Worker.Message.{
  Parsers, PairConfig, Result, Error, err, ok, ◌>>=◌, ◌>>◌, bail_if, or_fail, or_else, and_then,
  side_of, order_type_of, tif_of, stp_of, misaligned,
}
use serverless_matching_engi.Worker.Message

-- The message after serde has filled in the defaults, "user-1" and "GTC" among them.
pub record QueuedOrderMsg : Type 0 where
  pub id : String
  pub user_id : String
  pub pair_id : String
  pub side : String
  pub order_type : String
  pub tif : String
  pub price : Option String
  pub quantity : String
  pub stp_mode : Option String
  pub client_order_id : Option String
  pub created_at : Option String
  pub received_at : Option String

-- The order, with its quantity as it was read: it may be below zero, where the order here has 0.
unfoldable pub read_queued_order : Parsers → QueuedOrderMsg → Result (Order × Decimal)
read_queued_order p msg = do
  order_id ← or_fail (p.parse_uuid msg.id) Message.invalid_order_id
  side ← side_of msg.side
  order_type ← order_type_of msg.order_type
  quantity ← or_fail (p.decimal_from_str msg.quantity) Message.invalid_quantity
  let created_at = or_else (and_then msg.created_at p.parse_from_rfc3339) p.now
  ok (
    record {
      id = order_id;
      user_id = msg.user_id;
      pair_id = msg.pair_id;
      side = side;
      order_type = order_type;
      tif = tif_of msg.tif;
      price = and_then msg.price p.decimal_from_str;
      quantity = pos_part quantity;
      remaining = pos_part quantity;
      status = OrderStatus.new;
      stp_mode = stp_of (or_else msg.stp_mode "None");
      version = pos 1;
      sequence = pos 0;
      created_at = created_at;
      updated_at = p.now;
      client_order_id = msg.client_order_id;
      received_at = some (or_else (and_then msg.received_at p.parse_from_rfc3339) created_at);
      matched_at = none;
      persisted_at = none;
    },
    quantity,
  )

unfoldable pub check_price : PairConfig → Option Decimal → Result (Unit {0})
check_price cfg none = ok tt
check_price cfg (some price) =
    if ltb_ℤ (pos 0) cfg.tick_size
    then (misaligned price cfg.tick_size >>= λ bad. bail_if bad Message.tick_misaligned)
    else ok tt

-- The checks against the pair. The least size of a pair is taken to be 0 or more, so that no
-- quantity below zero passes.
unfoldable pub validate_order_request :
    (String → Option PairConfig) → String → Decimal → Option Decimal → Result (Unit {0})
validate_order_request pairs pair_id quantity price = do
  cfg ← or_fail (pairs pair_id) Message.unknown_pair
  bail_if (not cfg.active) Message.pair_inactive
  bad ← misaligned quantity cfg.lot_size
  bail_if bad Message.lot_misaligned
  bail_if (ltb_ℤ quantity cfg.min_order_size || ltb_ℤ cfg.max_order_size quantity)
      Message.out_of_range
  check_price cfg price
