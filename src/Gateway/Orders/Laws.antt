-- ===== src/Gateway/Orders/Laws.antt =====
-- What the worker reads of the messages that crates/gateway/src/routes.rs queues.
use serverless_matching_engi.Prelude.{false, Option, none, some, ◌≡◌, str_eq, ◌≢◌}
use serverless_matching_engi.Prelude.Int.{pos, pos_part}
use serverless_matching_engi.Types.{
  Order, TimeInForce, OrderStatus, SelfTradePreventionMode, Uuid, DateTime, Decimal,
}
use serverless_matching_engi.Worker.Message.{
  QueuedOrderMsg, Parsers, Error, Result, ok, err, read_order, or_else,
}
use serverless_matching_engi.Gateway.Orders.{
  Printers, CreateOrderRequest, BadRequest, order_json, Response, DispatchMode, World, dispatch,
}

-- The worker's error for what the handler refuses.
abbrev pub error_of : BadRequest → Error
error_of BadRequest.quantity_not_positive = Error.quantity_not_positive
error_of BadRequest.limit_requires_price = Error.limit_requires_price
error_of BadRequest.market_with_price = Error.market_with_price

-- The order that a request asks for, with the number and the time that the handler gave it.
abbrev pub requested_order : Uuid → DateTime → DateTime → CreateOrderRequest → Order
requested_order id now worker_now req = record {
  id = id;
  user_id = or_else req.user_id "user-1";
  pair_id = req.pair_id;
  side = req.side;
  order_type = req.order_type;
  tif = or_else req.tif TimeInForce.gtc;
  price = req.price;
  quantity = pos_part req.quantity;
  remaining = pos_part req.quantity;
  status = OrderStatus.new;
  stp_mode = or_else req.stp_mode SelfTradePreventionMode.none;
  version = pos 1;
  sequence = pos 0;
  created_at = now;
  updated_at = worker_now;
  client_order_id = req.client_order_id;
  received_at = some now;
  matched_at = none;
  persisted_at = none;
}

-- The outcome of reading a message that was made without the handler's checks.
abbrev pub outcome : Option BadRequest → Order → Result Order
outcome (some why) o = err (error_of why)
outcome none o = ok o

module _ (p : Printers) (q : Parsers) (order_id : Uuid) (now : DateTime)
    (uuid_back : q.parse_uuid (p.uuid_to_string order_id) ≡ some order_id)
    (uuid_text : str_eq (p.uuid_to_string order_id) "" ≡ false)
    (decimal_back : (d : Decimal) → q.decimal_from_str (p.decimal_to_string d) ≡ some d)
    (time_back : q.parse_from_rfc3339 (p.to_rfc3339 now) ≡ some now) where
  module _ {ℓ} {W : Type ℓ} (process_order_inline : QueuedOrderMsg → W → W) (mode : DispatchMode)
      (req : CreateOrderRequest) (w : World W) where
    -- By the response: what the call left of the world, and what a worker reads of the message.
    abbrev pub Handled : Response → World W → Type ℓ
    Handled (Response.bad_request why) w' =
        (w' ≡ w) × (read_order q (order_json p order_id now req) ≡ err (error_of why))
    Handled (Response.created id) w' =
        (id ≡ order_id)
        × (msg : QueuedOrderMsg) × (w' ≡ dispatch process_order_inline p mode req.pair_id msg w)
        × (read_order q msg ≡ ok (requested_order order_id now q.now req))
    Handled Response.queued w' = w' ≢ w'
