-- ===== src/Api/Orders.antt =====
-- process_queued_order of crates/api/src/worker.rs. The steps that it shares with process_order of
-- the gateway's worker come from there: the lock parameters, the trades of a reply, and what a call
-- takes from outside. A tracing line changes nothing and is left out, and so are the stopwatches.
pub mod Reading
pub mod Handing
pub mod Agreement
pub mod Marks
pub mod Handover
mod Tests
use serverless_matching_engi.Prelude.{
  ℕ, String, Bool, true, false, ◌||◌, ◌&&◌, Option, none, some, List, [], ◌∷◌, ◌++◌, map, str_eq,
  if◌then◌else◌, ltb, not, length,
}
use serverless_matching_engi.Prelude.Int.{ℤ, pos, pos_part, ltb_ℤ}
use serverless_matching_engi.Types.{Order, OrderStatus, TimeInForce, Trade, Decimal}
use serverless_matching_engi.Types.Pair.{parse_pair_id}
use serverless_matching_engi.Cache.Valkey.{Valkey}
use serverless_matching_engi.Cache.Match.{
  PairKeys, LuaTrade, LuaMatchResult, MatchReply, match_order_lua,
}
use serverless_matching_engi.Worker.Message.{
  Parsers, PairConfig, Result, Error, err, ok, ◌>>=◌, ◌>>◌, bail_if, or_fail, or_else, and_then,
  side_of, order_type_of, tif_of, stp_of, misaligned,
}
use serverless_matching_engi.Worker.Message
use serverless_matching_engi.Worker.Process.{Context, Failure, build_trades, lock_params}
use serverless_matching_engi.Api.Persist.{PersistJob}
use serverless_matching_engi.Api.Orders.Reading.{
  QueuedOrderMsg, read_queued_order, validate_order_request,
}
use serverless_matching_engi.Api.Orders.Handing.{Queues, Limits, job_of, hand_over}
use serverless_matching_engi.Metrics.{MetricsBatch, record_order}

-- How a call ends. A cancelled FOK order is neither matched nor persisted.
pub data Outcome : Type 0 where
  failed : Failure → Outcome
  fok_cancelled : Order → Outcome
  handed : PersistJob → Outcome

module _ (v : Valkey) (exponent_form : ℕ → String) (ctx : Context) (limits : Limits) where
  open v use {Db}

  pub record World : Type 0 where
    pub db : Db
    pub queues : Queues

  unfoldable pub after_reply : Order → Queues → MatchReply → Db → Outcome × World
  after_reply o q (MatchReply.err e) db' =
      (Outcome.failed (Failure.lua_failed e), record { db = db'; queues = q })
  after_reply o q (MatchReply.ok r) db' =
      let matched = record o {
        remaining = r.remaining;
        status = r.status;
        matched_at = some ctx.now;
      } in
      let job = job_of ctx matched r in
      (Outcome.handed job, record { db = db'; queues = hand_over limits job r q })

  unfoldable pub match_and_hand : Order → PairKeys → String → ℤ → World → Outcome × World
  match_and_hand o keys asset amount w =
      let (reply, db') = match_order_lua v exponent_form ctx.crates o keys asset amount w.db in
      after_reply o w.queues reply db'

  -- A FOK order is cancelled: its pair's view is refreshed only if something changed, and nothing
  -- did.
  unfoldable pub dispatch : TimeInForce → Order → String → ℤ → World → Outcome × World
  dispatch TimeInForce.fok o asset amount w =
      (Outcome.fok_cancelled (record o { status = OrderStatus.cancelled }), w)
  dispatch _ o asset amount w = elim (ctx.pair_keys o.pair_id) [
    | none ↦ (Outcome.failed Failure.unknown_pair_keys, w)
    | some keys ↦ match_and_hand o keys asset amount w
  ]

  unfoldable pub lock_and_dispatch : Order → World → Outcome × World
  lock_and_dispatch o w = elim (parse_pair_id o.pair_id) [
    | none ↦ (Outcome.failed Failure.invalid_pair_id, w)
    | some (base, quote) ↦
        let (asset, amount) = lock_params ctx.mul base quote o in dispatch o.tif o asset amount w
  ]

  unfoldable pub process_queued_order : QueuedOrderMsg → World → Outcome × World
  process_queued_order msg w = elim (read_queued_order ctx.parsers msg) [
    | Message.err e ↦ (Outcome.failed (Failure.refused e), w)
    | Message.ok (o, quantity) ↦
        elim (validate_order_request ctx.pairs_cache o.pair_id quantity o.price) [
          | Message.err e ↦ (Outcome.failed (Failure.refused e), w)
          | Message.ok u ↦ lock_and_dispatch o w
        ]
  ]
