-- ===== src/Api/Orders/Handover.antt =====
-- What a call of process_queued_order of crates/api/src/worker.rs leaves to the background workers.
use serverless_matching_engi.Prelude.{
  ℕ, String, Bool, ◌||◌, some, List, [], ◌∷◌, ◌++◌, ◌≡◌, refl, eq_refl, arith, Option-cases, inl,
  inr, subst, sym, ◌⊎◌, length, All, eq_iff, str_eq, if◌then◌else◌,
}
use serverless_matching_engi.Prelude.Int.{ℤ}
use serverless_matching_engi.Types.{Order, Decimal, TimeInForce, Trade}
use serverless_matching_engi.Types.Pair.{parse_pair_id}
use serverless_matching_engi.Cache.Valkey.{Valkey}
use serverless_matching_engi.Cache.Match.{LuaMatchResult, MatchReply, match_order_lua}
use serverless_matching_engi.Worker.Message
use serverless_matching_engi.Worker.Process.{Context, lock_params}
use serverless_matching_engi.Metrics.{record_order, pair_index}
use serverless_matching_engi.Api.Persist.{PersistJob}
use serverless_matching_engi.Api.Orders.Reading.{
  QueuedOrderMsg, read_queued_order, validate_order_request,
}
use serverless_matching_engi.Api.Orders.Handing.{
  signalled, Queues, Limits, try_send, mark_users, send_job, publish, mark_book, job_of, hand_over,
  rested, any,
}
use serverless_matching_engi.Api.Orders.{
  Outcome, World, after_reply, match_and_hand, dispatch, lock_and_dispatch, process_queued_order,
}
use serverless_matching_engi.Api.Orders.Marks.{
  is_in, is_in-push, Reached, BothReached, try_send-Reached, mark_users-keeps, mark_users-Reached,
}

-- The book that is rebuilt for an order of a pair: its own for ETH and SOL, and otherwise BTC's.
abbrev pub book_of : String → String
book_of pair_id =
    if str_eq pair_id "ETH-USDT" || str_eq pair_id "SOL-USDT" then pair_id else "BTC-USDT"

signalled_lem : (pair_id : String) → signalled pair_id ≡ book_of pair_id
unfolding signalled pair_index
signalled_lem pair_id =
    ground (arith, eq_iff pair_id "BTC-USDT", eq_iff pair_id "ETH-USDT", eq_iff pair_id "SOL-USDT")

-- The job is in the channel or given to a task of its own, once.
abbrev pub Taken : PersistJob → Queues → Queues → Type 0
Taken job q q' =
    ((q'.jobs ≡ q.jobs ++ job ∷ []) × (q'.direct ≡ q.direct))
    ⊎ ((q'.jobs ≡ q.jobs) × (q'.direct ≡ q.direct ++ job ∷ []))

-- By how a call ends: what it leaves to the workers.
abbrev pub Hands : Limits → Queues → Outcome → Queues → Type 0
Hands limits q (Outcome.failed e) q' = q' ≡ q
Hands limits q (Outcome.fok_cancelled o) q' = q' ≡ q
Hands limits q (Outcome.handed job) q' =
    Taken job q q'
    × Reached limits.users job.order.user_id q'.dirty_users
    × All (BothReached limits.users job.order.user_id q'.dirty_users) job.trades
    × (is_in (book_of job.order.pair_id) q'.dirty_pairs ≡ (
        is_in (book_of job.order.pair_id) q.dirty_pairs
        || (any job.trades || rested job.order.status)))

module _ (n : ℕ) (listened : Bool) (job : PersistJob) (o : Order) (ts : List Trade)
    (q : Queues) where
  -- The last steps of a handover.
  abbrev final : Queues
  final = mark_book o ts (publish listened o ts (send_job n job q))

  final-dirty_users : final.dirty_users ≡ q.dirty_users
  unfolding mark_book publish send_job
  final-dirty_users = ground arith

  final-Taken : Taken job q final
  unfolding mark_book publish send_job
  final-Taken = ground arith

  final-dirty_pairs :
      is_in (book_of o.pair_id) final.dirty_pairs
      ≡ (is_in (book_of o.pair_id) q.dirty_pairs || (any ts || rested o.status))
  unfolding mark_book publish send_job
  final-dirty_pairs = ground (
    arith,
    signalled_lem o.pair_id,
    is_in-push (book_of o.pair_id) (book_of o.pair_id) q.dirty_pairs,
    eq_refl (book_of o.pair_id),
  )

hand_over-Hands :
    (ctx : Context) (limits : Limits) (o : Order) (r : LuaMatchResult) (q : Queues)
    → Hands limits q (Outcome.handed (job_of ctx o r)) (hand_over limits (job_of ctx o r) r q)
unfolding hand_over
hand_over-Hands ctx limits o r q =
    let job = job_of ctx o r in
    let n = limits.users in
    let owner = try_send n o.user_id q.dirty_users in
    let users = mark_users n o.user_id r.trades owner in
    let reached = try_send-Reached n o.user_id q.dirty_users in
    let marked = record q {
      metrics = record_order o.pair_id (length r.trades) limits.match_ms q.metrics;
      dirty_users = users;
    } in
    let same = final-dirty_users limits.jobs limits.listened job o job.trades marked in
    (
      final-Taken limits.jobs limits.listened job o job.trades marked,
      subst (Reached n o.user_id) (sym same)
          (mark_users-keeps n o.user_id o.user_id r.trades owner reached),
      subst (λ us. All (BothReached n o.user_id us) job.trades) (sym same)
          (mark_users-Reached n o.user_id ctx o 0 r.trades owner reached),
      final-dirty_pairs limits.jobs limits.listened job o job.trades marked,
    )

module _ (v : Valkey) (f : ℕ → String) (ctx : Context) (limits : Limits) where
  -- The queues before, and a call's outcome and world.
  abbrev Leaves : Queues → Outcome × World v f ctx limits → Type 0
  Leaves q (out, w') = Hands limits q out w'.queues

  after_reply-Leaves :
      (o : Order) (q : Queues) (reply : MatchReply) (db : v.Db)
      → Leaves q (after_reply v f ctx limits o q reply db)
  unfolding after_reply
  after_reply-Leaves o q (MatchReply.err e) db = refl
  after_reply-Leaves o q (MatchReply.ok r) db =
      hand_over-Hands ctx limits
        (record o { remaining = r.remaining; status = r.status; matched_at = some ctx.now }) r q

  module _ (o : Order) (w : World v f ctx limits) where
    matched-Leaves :
        (asset : String) (amount : ℤ)
        → Leaves w.queues (dispatch v f ctx limits TimeInForce.gtc o asset amount w)
    unfolding dispatch match_and_hand
    matched-Leaves asset amount = elim (Option-cases (ctx.pair_keys o.pair_id)) [
      | inl n ↦ rw (n, dispatch) refl
      | inr (keys, n) ↦
          let (reply, db') = match_order_lua v f ctx.crates o keys asset amount w.db in
          rw (n, dispatch, match_and_hand) (after_reply-Leaves o w.queues reply db')
    ]

    dispatch-Leaves :
        (tif : TimeInForce) (asset : String) (amount : ℤ)
        → Leaves w.queues (dispatch v f ctx limits tif o asset amount w)
    unfolding dispatch
    dispatch-Leaves TimeInForce.fok asset amount = refl
    dispatch-Leaves TimeInForce.gtc asset amount = matched-Leaves asset amount
    dispatch-Leaves TimeInForce.ioc asset amount = matched-Leaves asset amount

    lock_and_dispatch-Leaves : Leaves w.queues (lock_and_dispatch v f ctx limits o w)
    unfolding lock_and_dispatch
    lock_and_dispatch-Leaves = elim (Option-cases (parse_pair_id o.pair_id)) [
      | inl e ↦ rw (e, lock_and_dispatch) refl
      | inr ((base, quote), e) ↦
          let (asset, amount) = lock_params ctx.mul base quote o in
          rw (e, lock_and_dispatch) (dispatch-Leaves o.tif asset amount)
    ]

  -- Whatever the message: a call that hands over a job puts it into the channel or gives it to a
  -- task of its own, once; the order's user and those of its trades are in the channel of users, or
  -- that is full; and the book that is rebuilt for the pair, which is BTC-USDT's for any pair but
  -- ETH-USDT and SOL-USDT, is marked if and only if there is a trade, the order rests or it was
  -- marked before. Any other call leaves the queues as they were.
  pub process_queued_order-Hands :
      (msg : QueuedOrderMsg) (w : World v f ctx limits)
      → let (out, w') = process_queued_order v f ctx limits msg w in
        Hands limits w.queues out w'.queues
  unfolding process_queued_order
  process_queued_order-Hands msg w = by_message (read_queued_order ctx.parsers msg) refl
    where
      by_check :
          (o : Order) (quantity : Decimal) (c : Message.Result (Unit {0}))
          → read_queued_order ctx.parsers msg ≡ Message.ok (o, quantity)
          → validate_order_request ctx.pairs_cache o.pair_id quantity o.price ≡ c
          → Leaves w.queues (process_queued_order v f ctx limits msg w)
      by_check o quantity (Message.err x) e c = rw (e, c, process_queued_order) refl
      by_check o quantity (Message.ok u) e c =
          rw (e, c, process_queued_order) (lock_and_dispatch-Leaves o w)

      by_message :
          (m : Message.Result (Order × Decimal))
          → read_queued_order ctx.parsers msg ≡ m
          → Leaves w.queues (process_queued_order v f ctx limits msg w)
      by_message (Message.err x) e = rw (e, process_queued_order) refl
      by_message (Message.ok (o, quantity)) e = by_check o quantity _ e refl
