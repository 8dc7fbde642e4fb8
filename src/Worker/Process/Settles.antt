-- ===== src/Worker/Process/Settles.antt =====
-- How process_order changes the tables: by one settlement of the order at most.
use serverless_matching_engi.Prelude.{
  ℕ, String, ◌≡◌, refl, some, List, map, Option-cases, Bool-cases, inl, inr, ◌⊎◌,
}
use serverless_matching_engi.Types.{Order, TimeInForce}
use serverless_matching_engi.Types.Pair.{parse_pair_id}
use serverless_matching_engi.Cache.Valkey.{Valkey}
use serverless_matching_engi.Cache.Match.{LuaMatchResult, MatchReply, match_order_lua, LuaTrade}
use serverless_matching_engi.Worker.Message.{QueuedOrderMsg, read_order, validate_order}
use serverless_matching_engi.Worker.Message
use serverless_matching_engi.Worker.Persist.{persist_order, Tables, Fill}
use serverless_matching_engi.Worker.Process.{
  Context, World, Outcome, persist, after_match, match_and_persist, lock_and_match, dispatch,
  process_order, matched, lock_params, build_trades, is_warmup,
}

module _ (v : Valkey) (f : ℕ → String) (ctx : Context) where
  -- By how a call ends: the tables are those of before, or the transaction for the order that was
  -- matched, with its trades, leads from the ones to the others.
  abbrev pub Settles : Tables → Outcome → Tables → Type 0
  Settles t (Outcome.processed o ts) t' =
      (t' ≡ t)
      ⊎ ((fills : List Fill) × (persist_order ctx.cost ctx.increment ctx.now o ts fills t
            ≡ some t'))
  Settles t (Outcome.failed e) t' = t' ≡ t
  Settles t (Outcome.fok_cancelled o) t' = t' ≡ t

  abbrev Keeps : World v f ctx → Outcome × World v f ctx → Type 0
  Keeps w (out, w') = Settles w.tables out w'.tables

  persist-Keeps :
      (o : Order) (r : LuaMatchResult) (w : World v f ctx) (db : v.Db)
      → Keeps w (persist v f ctx o r w.tables db)
  unfolding persist
  persist-Keeps o r w db =
      let trades = build_trades ctx.new_uuid ctx.now o 0 r.trades in
      let fills : List Fill = map (λ (t : LuaTrade). (t.resting_order_id, t.quantity)) r.trades in
      elim (Bool-cases (is_warmup ctx o)) [
        | inl warm ↦ rw warm (inl refl)
        | inr cold ↦
            elim (Option-cases
              (persist_order ctx.cost ctx.increment ctx.now o trades fills w.tables)) [
                | inl e ↦ rw (cold, e) refl
                | inr (t', e) ↦ rw (cold, e) (inr (fills, e))
              ]
      ]

  after_match-Keeps :
      (o : Order) (w : World v f ctx) (reply : MatchReply) (db : v.Db)
      → Keeps w (after_match v f ctx o w reply db)
  unfolding after_match
  after_match-Keeps o w (MatchReply.err e) db = refl
  after_match-Keeps o w (MatchReply.ok r) db = persist-Keeps (matched v f ctx o r) r w db

  lock_and_match-Keeps : (o : Order) (w : World v f ctx) → Keeps w (lock_and_match v f ctx o w)
  unfolding lock_and_match match_and_persist
  lock_and_match-Keeps o w = elim (Option-cases (parse_pair_id o.pair_id)) [
    | inl e ↦ rw (e, lock_and_match) refl
    | inr ((base, quote), e) ↦ elim (Option-cases (ctx.pair_keys o.pair_id)) [
      | inl n ↦ rw (e, n, lock_and_match) refl
      | inr (keys, n) ↦
          let (asset, amount) = lock_params ctx.mul base quote o in
          let (reply, db') = match_order_lua v f ctx.crates o keys asset amount w.db in
          rw (e, n, lock_and_match, match_and_persist) (after_match-Keeps o w reply db')
    ]
  ]

  dispatch-Keeps :
      (tif : TimeInForce) (o : Order) (w : World v f ctx) → Keeps w (dispatch v f ctx tif o w)
  unfolding dispatch
  dispatch-Keeps TimeInForce.fok o w = refl
  dispatch-Keeps TimeInForce.gtc o w = lock_and_match-Keeps o w
  dispatch-Keeps TimeInForce.ioc o w = lock_and_match-Keeps o w

  -- Whatever the message: the tables stay as they were, or the message was processed and one
  -- transaction of persist_order, for the matched order and its trades, leads to the new tables.
  pub process_order-Settles :
      (msg : QueuedOrderMsg) (w : World v f ctx)
      → Settles w.tables (process_order v f ctx msg w).0 (process_order v f ctx msg w).1.tables
  unfolding process_order
  process_order-Settles msg w = by_message (read_order ctx.parsers msg) refl
    where
      by_check :
          (o : Order) (c : Message.Result (Unit {0}))
          → read_order ctx.parsers msg ≡ Message.ok o
          → validate_order ctx.pairs_cache o ≡ c
          → Keeps w (process_order v f ctx msg w)
      by_check o (Message.err x) e c = rw (e, c, process_order) refl
      by_check o (Message.ok u) e c = rw (e, c, process_order) (dispatch-Keeps o.tif o w)

      by_message :
          (m : Message.Result Order)
          → read_order ctx.parsers msg ≡ m
          → Keeps w (process_order v f ctx msg w)
      by_message (Message.err x) e = rw (e, process_order) refl
      by_message (Message.ok o) e = by_check o (validate_order ctx.pairs_cache o) e refl
