-- ===== src/Api/Orders/Agreement.antt =====
-- The two deployments side by side: process_queued_order of crates/api/src/worker.rs and
-- process_order of crates/gateway/src/worker.rs, given the same message.
use serverless_matching_engi.Prelude.{ℕ, String, none, some, ◌≡◌}
use serverless_matching_engi.Types.{Order}
use serverless_matching_engi.Types.Pair.{parse_pair_id}
use serverless_matching_engi.Cache.Valkey.{Valkey}
use serverless_matching_engi.Worker.Message
use serverless_matching_engi.Worker.Persist.{Tables}
use serverless_matching_engi.Worker.Process.{Context, Failure}
use serverless_matching_engi.Worker.Process
use serverless_matching_engi.Api.Orders.Reading.{QueuedOrderMsg}
use serverless_matching_engi.Api.Orders.Handing.{Queues, Limits}
use serverless_matching_engi.Api.Orders.{Outcome, World}

-- The message as the gateway's worker reads it.
abbrev pub as_queued : QueuedOrderMsg → Message.QueuedOrderMsg
as_queued msg = record {
  id = some msg.id;
  user_id = msg.user_id;
  pair_id = msg.pair_id;
  side = msg.side;
  order_type = msg.order_type;
  tif = msg.tif;
  price = msg.price;
  quantity = msg.quantity;
  stp_mode = msg.stp_mode;
  client_order_id = msg.client_order_id;
  created_at = msg.created_at;
  received_at = msg.received_at;
  time_in_force = none;
}

module _ (v : Valkey) (f : ℕ → String) (ctx : Context) (limits : Limits) where
  -- The same end: the same refusal, or the same order with the same trades, which one has persisted
  -- and the other hands over to be persisted. A FOK order whose pair cannot be parsed is refused by
  -- the one and cancelled by the other.
  abbrev pub SameEnd : Process.Outcome → Outcome → Type 0
  SameEnd (Process.Outcome.processed o ts) (Outcome.handed job) =
      (job.order ≡ o) × (job.trades ≡ ts)
  SameEnd (Process.Outcome.failed Failure.persist_failed) (Outcome.handed job) = Unit
  SameEnd (Process.Outcome.failed e) (Outcome.failed e') = e' ≡ e
  SameEnd (Process.Outcome.fok_cancelled o) (Outcome.fok_cancelled o') = o' ≡ o
  SameEnd (Process.Outcome.fok_cancelled o) (Outcome.failed Failure.invalid_pair_id) =
      parse_pair_id o.pair_id ≡ none
  SameEnd _ _ = ⊥

  abbrev pub Agree :
      Process.Outcome × Process.World v f ctx → Outcome × World v f ctx limits → Type 0
  Agree (out, w) (out', w') = (w'.db ≡ w.db) × SameEnd out out'

  module _ (tables : Tables) (queues : Queues) where
    module _ (o : Order) (db : v.Db) where
      -- The world of each at the first.
      abbrev before : Process.World v f ctx
      before = record { db = db; tables = tables }

      abbrev first : World v f ctx limits
      first = record { db = db; queues = queues }
