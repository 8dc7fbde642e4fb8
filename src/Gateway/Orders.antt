-- ===== src/Gateway/Orders.antt =====
-- The handlers of orders in crates/gateway/src/routes.rs: what they refuse, and the message that
-- they queue or process. A JSON object is the record of the fields that its reader takes; how Uuid,
-- Decimal and DateTime are printed is a parameter. Logging and timing are left out.
pub mod Laws
mod Tests
use Prim.Native.String.{◌++◌ as append}
use serverless_matching_engi.Prelude.{
  String, Bool, true, false, not, ◌&&◌, Option, none, some, List, ◌∷◌, if◌then◌else◌,
}
use serverless_matching_engi.Prelude.Int.{ℤ, pos, leb_ℤ}
use serverless_matching_engi.Types.{
  Side, OrderType, TimeInForce, SelfTradePreventionMode, Uuid, DateTime, Decimal,
}
use serverless_matching_engi.Worker.Message.{QueuedOrderMsg, is_limit, is_none, or_else}

unfoldable pub side_str : Side → String
side_str Side.buy = "Buy"
side_str Side.sell = "Sell"

unfoldable pub order_type_str : OrderType → String
order_type_str OrderType.limit = "Limit"
order_type_str OrderType.market = "Market"

unfoldable pub tif_str : TimeInForce → String
tif_str TimeInForce.gtc = "GTC"
tif_str TimeInForce.ioc = "IOC"
tif_str TimeInForce.fok = "FOK"

unfoldable pub stp_str : SelfTradePreventionMode → String
stp_str SelfTradePreventionMode.none = "None"
stp_str SelfTradePreventionMode.cancel_maker = "CancelMaker"
stp_str SelfTradePreventionMode.cancel_taker = "CancelTaker"
stp_str SelfTradePreventionMode.cancel_both = "CancelBoth"

pub record Printers : Type 0 where
  pub uuid_to_string : Uuid → String
  pub decimal_to_string : Decimal → String
  pub to_rfc3339 : DateTime → String

pub record CreateOrderRequest : Type 0 where
  pub user_id : Option String
  pub pair_id : String
  pub side : Side
  pub order_type : OrderType
  pub tif : Option TimeInForce
  pub price : Option Decimal
  pub quantity : Decimal
  pub stp_mode : Option SelfTradePreventionMode
  pub client_order_id : Option String

-- The order that replaces another: its pair, if it has one, and its text.
pub record Replacement : Type 0 where
  pub pair_id : Option String
  pub text : String

-- The fields of a cancellation that the worker reads, each of which may be missing.
pub record Cancellation : Type 0 where
  pub type : Option String
  pub order_id : Option String
  pub user_id : Option String
  pub pair_id : Option String
  pub new_order : Option Replacement

-- What is pushed to a queue.
pub data Payload : Type 0 where
  order : QueuedOrderMsg → Payload
  cancellation : Cancellation → Payload
  replacement : Replacement → Payload

pub data BadRequest : Type 0 where
  quantity_not_positive limit_requires_price market_with_price : BadRequest

pub data Response : Type 0 where
  bad_request : BadRequest → Response
  created : Uuid → Response
  queued : Response

pub data DispatchMode : Type 0 where
  queue inline : DispatchMode

abbrev pub map_option {ℓ κ} : {A : Type ℓ} {B : Type κ} → (A → B) → Option A → Option B
map_option f none = none
map_option f (some a) = some (f a)

unfoldable pub order_json : Printers → Uuid → DateTime → CreateOrderRequest → QueuedOrderMsg
order_json p order_id now req = record {
  id = some (p.uuid_to_string order_id);
  user_id = or_else req.user_id "user-1";
  pair_id = req.pair_id;
  side = side_str req.side;
  order_type = order_type_str req.order_type;
  tif = tif_str (or_else req.tif TimeInForce.gtc);
  price = map_option p.decimal_to_string req.price;
  quantity = p.decimal_to_string req.quantity;
  stp_mode = some (stp_str (or_else req.stp_mode SelfTradePreventionMode.none));
  client_order_id = req.client_order_id;
  created_at = some (p.to_rfc3339 now);
  received_at = some (p.to_rfc3339 now);
  time_in_force = none;
}

-- The early returns.
unfoldable pub refusal : CreateOrderRequest → Option BadRequest
refusal req =
    if leb_ℤ req.quantity (pos 0)
    then some BadRequest.quantity_not_positive
    else if is_limit req.order_type && is_none req.price
    then some BadRequest.limit_requires_price
    else if not (is_limit req.order_type) && not (is_none req.price)
    then some BadRequest.market_with_price
    else none

-- The queues with what was pushed, the newest first, and what processing an order changes.
pub record World {ℓ} (W : Type ℓ) : Type ℓ where
  pub queues : List (String × Payload)
  pub state : W

abbrev pub push {ℓ} : {W : Type ℓ} → String → Payload → World W → World W
push key payload w = record w { queues = (key, payload) ∷ w.queues }

unfoldable pub cancel_json : Printers → Uuid → Cancellation
cancel_json p order_id = record {
  type = some "cancel";
  order_id = some (p.uuid_to_string order_id);
  user_id = none;
  pair_id = none;
  new_order = none;
}

unfoldable pub modify_json : Printers → Uuid → Cancellation
modify_json p order_id = record {
  type = some "modify";
  order_id = some (p.uuid_to_string order_id);
  user_id = none;
  pair_id = none;
  new_order = none;
}

unfoldable pub cancel_all_json : Printers → Option String → Option String → Cancellation
cancel_all_json p user_id pair_id = record {
  type = some "cancel_all";
  order_id = none;
  user_id = some (or_else user_id "user-1");
  pair_id = pair_id;
  new_order = none;
}

module _ {ℓ} {W : Type ℓ} (process_order_inline : QueuedOrderMsg → W → W) (p : Printers) where
  -- A failure of the inline processing is logged only.
  unfoldable pub dispatch : DispatchMode → String → QueuedOrderMsg → World W → World W
  dispatch DispatchMode.inline pair_id msg w = record w { state = process_order_inline msg w.state }
  dispatch DispatchMode.queue pair_id msg w =
      push (append "queue:orders:" pair_id) (Payload.order msg) w

  unfoldable pub create_order :
      DispatchMode → Uuid → DateTime → CreateOrderRequest → World W → Response × World W
  create_order mode order_id now req w = elim (refusal req) [
    | some why ↦ (Response.bad_request why, w)
    | none ↦
        (Response.created order_id, dispatch mode req.pair_id (order_json p order_id now req) w)
  ]

  unfoldable pub queue_cancellation : Cancellation → World W → Response × World W
  queue_cancellation c w = (Response.queued, push "queue:cancellations" (Payload.cancellation c) w)

  unfoldable pub cancel_order : Uuid → World W → Response × World W
  cancel_order order_id w = queue_cancellation (cancel_json p order_id) w

  -- The new order of the request is not used.
  unfoldable pub modify_order : Uuid → CreateOrderRequest → World W → Response × World W
  modify_order order_id req w = queue_cancellation (modify_json p order_id) w

  unfoldable pub cancel_all_orders : Option String → Option String → World W → Response × World W
  cancel_all_orders user_id pair_id w = queue_cancellation (cancel_all_json p user_id pair_id) w
