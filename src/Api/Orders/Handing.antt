-- ===== src/Api/Orders/Handing.antt =====
-- What process_queued_order of crates/api/src/worker.rs hands to the background workers.
use serverless_matching_engi.Prelude.{
  ℕ, zero, suc, String, Bool, true, false, ◌||◌, ◌&&◌, List, [], ◌∷◌, ◌++◌, map, str_eq,
  if◌then◌else◌, ltb, length,
}
use serverless_matching_engi.Types.{Order, OrderStatus, Trade}
use serverless_matching_engi.Cache.Match.{LuaTrade, LuaMatchResult}
use serverless_matching_engi.Worker.Process.{Context, build_trades}
use serverless_matching_engi.Api.Persist.{PersistJob}
use serverless_matching_engi.Metrics.{MetricsBatch, record_order, pair_index}

-- What the process keeps for its background workers: the channel of jobs to persist and those jobs
-- that found it full, the channel of users whose portfolio changed, the pairs whose book changed,
-- the batch of metrics, and the events for subscribers.
pub record Queues : Type 0 where
  pub jobs : List PersistJob
  pub direct : List PersistJob
  pub dirty_users : List String
  pub dirty_pairs : List String
  pub metrics : MetricsBatch
  pub events : List (Order × List Trade)

-- The capacities of the two channels, whether someone listens to the events, and the milliseconds
-- that the match takes.
pub record Limits : Type 0 where
  pub jobs : ℕ
  pub users : ℕ
  pub listened : Bool
  pub match_ms : ℕ

-- `try_send`: a full channel drops the message.
unfoldable pub try_send {ℓ} : {A : Type ℓ} → ℕ → A → List A → List A
try_send capacity a queue = if ltb (length queue) capacity then queue ++ a ∷ [] else queue

abbrev pub mark_user : ℕ → String → String → List String → List String
mark_user capacity owner user users =
    if str_eq user owner then users else try_send capacity user users

-- The users of the trades that are not the order's own.
unfoldable pub mark_users : ℕ → String → List LuaTrade → List String → List String
mark_users capacity user_id [] users = users
mark_users capacity user_id (t ∷ ts) users =
    mark_users capacity user_id ts
      (mark_user capacity user_id t.seller_id (mark_user capacity user_id t.buyer_id users))

-- A job that finds the channel full is persisted by a task of its own.
unfoldable pub send_job : ℕ → PersistJob → Queues → Queues
send_job capacity job q =
    if ltb (length q.jobs) capacity
    then record q { jobs = q.jobs ++ job ∷ [] }
    else record q { direct = q.direct ++ job ∷ [] }

abbrev pub rested : OrderStatus → Bool
rested OrderStatus.new = true
rested OrderStatus.partially_filled = true
rested _ = false

abbrev pub any {ℓ} : {A : Type ℓ} → List A → Bool
any [] = false
any (a ∷ rest) = true

unfoldable pub publish : Bool → Order → List Trade → Queues → Queues
publish listened o trades q =
    if any trades && listened then record q { events = q.events ++ (o, trades) ∷ [] } else q

-- The pair whose rebuild is signalled: PAIRS at the index of the pair, which is 0 for every pair
-- that the process does not know.
unfoldable pub signalled : String → String
signalled pair_id = elim (pair_index pair_id) [
  | zero ↦ "BTC-USDT"
  | suc zero ↦ "ETH-USDT"
  | suc (suc i) ↦ "SOL-USDT"
]

-- A pair is signalled if a trade occurred or the order rested.
unfoldable pub mark_book : Order → List Trade → Queues → Queues
mark_book o trades q =
    if any trades || rested o.status
    then record q { dirty_pairs = q.dirty_pairs ++ signalled o.pair_id ∷ [] }
    else q

abbrev pub job_of : Context → Order → LuaMatchResult → PersistJob
job_of ctx o r = record {
  order = o;
  trades = build_trades ctx.new_uuid ctx.now o 0 r.trades;
  lua_trades = map (λ (t : LuaTrade). (t.resting_order_id, t.quantity)) r.trades;
}

-- All that follows a match, in its order.
unfoldable pub hand_over : Limits → PersistJob → LuaMatchResult → Queues → Queues
hand_over limits job r q =
    let o = job.order in
    let counted = record q {
      metrics = record_order o.pair_id (length r.trades) limits.match_ms q.metrics;
    } in
    let marked = record counted {
      dirty_users =
          mark_users limits.users o.user_id r.trades
            (try_send limits.users o.user_id counted.dirty_users);
    } in
    let sent = send_job limits.jobs job marked in
    mark_book o job.trades (publish limits.listened o job.trades sent)
