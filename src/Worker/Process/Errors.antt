-- ===== src/Worker/Process/Errors.antt =====
-- What a call of process_order that does not process the order leaves behind.
use serverless_matching_engi.Prelude.{
  ℕ, String, ◌≡◌, ◌≢◌, refl, ap, List, arith, Option-cases, inl, inr,
}
use serverless_matching_engi.Prelude.Int.{ℤ}
use serverless_matching_engi.Types.{Order, TimeInForce}
use serverless_matching_engi.Types.Pair.{parse_pair_id}
use serverless_matching_engi.Cache.Crates.{Crates}
use serverless_matching_engi.Cache.Valkey.{Valkey}
use serverless_matching_engi.Cache.Script.{
  Keys, Argv, ScriptState, match_after_lock, match_script, lock_balance, finish, result,
}
use serverless_matching_engi.Cache.Match.{
  PairKeys, LuaMatchResult, MatchError, MatchReply, match_order_lua, script_keys, script_argv,
  parse_reply, parse_result,
}
use serverless_matching_engi.Worker.Message.{QueuedOrderMsg, read_order, validate_order}
use serverless_matching_engi.Worker.Message
use serverless_matching_engi.Worker.Process.{
  Context, World, Outcome, Failure, persist, after_match, match_and_persist, lock_and_match,
  dispatch, process_order, matched, lock_params,
}

-- A result other than the refusal for lack of balance.
parse_result-ne-insufficient :
    (lib : Crates) (a b c : String) (items : List String)
    → parse_result lib a b c items ≢ MatchReply.err MatchError.insufficient_balance
unfolding parse_result
parse_result-ne-insufficient lib a b c items = ground arith

finish-ne-insufficient :
    (v : Valkey) (f : ℕ → String) (lib : Crates) (k : Keys) (a : Argv) (s : ScriptState v f)
    → parse_reply lib (finish v f k a s).0 ≢ MatchReply.err MatchError.insufficient_balance
unfolding finish result parse_reply
finish-ne-insufficient v f lib k a s = parse_result-ne-insufficient lib _ _ _ _

-- The script's own reply is no refusal for lack of balance, so that one leaves the database alone.
insufficient-unchanged :
    (v : Valkey) (f : ℕ → String) (lib : Crates) (k : Keys) (a : Argv) (db : v.Db)
    → parse_reply lib (match_script v f k a db).0 ≡ MatchReply.err MatchError.insufficient_balance
    → (match_script v f k a db).1 ≡ db
unfolding match_script
insufficient-unchanged v f lib k a db h = elim (Option-cases (lock_balance v f a db)) [
  | inl e ↦ rw (e, match_script)
  | inr (db', e) ↦ absurd (
      finish-ne-insufficient v f lib k a (match_after_lock v f k a db') (rw (e, match_script) at h))
]

module _ (v : Valkey) (f : ℕ → String) (ctx : Context) where
  -- By how the call ends: what it leaves of the world `w`.
  abbrev pub Leaves : World v f ctx → Outcome → World v f ctx → Type 0
  Leaves w (Outcome.failed (Failure.lua_failed MatchError.insufficient_balance)) w' = w' ≡ w
  Leaves w (Outcome.failed (Failure.lua_failed e)) w' = w'.tables ≡ w.tables
  Leaves w (Outcome.failed Failure.persist_failed) w' = w'.tables ≡ w.tables
  Leaves w (Outcome.failed e) w' = w' ≡ w
  Leaves w (Outcome.fok_cancelled o) w' = w' ≡ w
  Leaves w (Outcome.processed o ts) w' = Unit

  persist-Leaves :
      (o : Order) (r : LuaMatchResult) (w : World v f ctx) (db : v.Db)
      → Leaves w (persist v f ctx o r w.tables db).0 (persist v f ctx o r w.tables db).1
  unfolding persist
  persist-Leaves o r w db = ground arith

  after_match-Leaves :
      (o : Order) (w : World v f ctx) (reply : MatchReply) (db : v.Db)
      → (reply ≡ MatchReply.err MatchError.insufficient_balance → db ≡ w.db)
      → Leaves w (after_match v f ctx o w reply db).0 (after_match v f ctx o w reply db).1
  unfolding after_match
  after_match-Leaves o w (MatchReply.err MatchError.insufficient_balance) db h =
      ap (λ d. record { db = d; tables = w.tables }) (h refl)
  after_match-Leaves o w (MatchReply.err MatchError.too_few_fields) db h = refl
  after_match-Leaves o w (MatchReply.err MatchError.script_error) db h = refl
  after_match-Leaves o w (MatchReply.err MatchError.unknown_status) db h = refl
  after_match-Leaves o w (MatchReply.err MatchError.too_few_items) db h = refl
  after_match-Leaves o w (MatchReply.err MatchError.bad_trade) db h = refl
  after_match-Leaves o w (MatchReply.ok r) db h = persist-Leaves (matched v f ctx o r) r w db

  match_and_persist-Leaves :
      (o : Order) (keys : PairKeys) (asset : String) (amount : ℤ) (w : World v f ctx)
      → let (out, w') = match_and_persist v f ctx o keys asset amount w in Leaves w out w'
  unfolding match_and_persist match_order_lua
  match_and_persist-Leaves o keys asset amount w = after_match-Leaves o w _ _ (
      insufficient-unchanged v f ctx.crates (script_keys ctx.crates keys o)
        (script_argv ctx.crates o asset amount) w.db)

  lock_and_match-Leaves :
      (o : Order) (w : World v f ctx)
      → let (out, w') = lock_and_match v f ctx o w in Leaves w out w'
  unfolding lock_and_match
  lock_and_match-Leaves o w = elim (Option-cases (parse_pair_id o.pair_id)) [
    | inl e ↦ rw (e, lock_and_match)
    | inr ((base, quote), e) ↦ elim (Option-cases (ctx.pair_keys o.pair_id)) [
      | inl n ↦ rw (e, n, lock_and_match)
      | inr (keys, n) ↦
          rw (e, n, lock_and_match)
            (match_and_persist-Leaves o keys (lock_params ctx.mul base quote o).0
              (lock_params ctx.mul base quote o).1 w)
    ]
  ]

  dispatch-Leaves :
      (tif : TimeInForce) (o : Order) (w : World v f ctx)
      → let (out, w') = dispatch v f ctx tif o w in Leaves w out w'
  unfolding dispatch
  dispatch-Leaves TimeInForce.fok o w = refl
  dispatch-Leaves TimeInForce.gtc o w = lock_and_match-Leaves o w
  dispatch-Leaves TimeInForce.ioc o w = lock_and_match-Leaves o w

  -- A call that does not process the order leaves the world as it was: a message that is refused,
  -- an order that is fill-or-kill (it is cancelled unmatched), an unknown pair, and a lack of
  -- balance. Any other failure, of the script's reply or of the transaction, leaves the tables as
  -- they were.
  pub process_order-Leaves :
      (msg : QueuedOrderMsg) (w : World v f ctx)
      → let (out, w') = process_order v f ctx msg w in Leaves w out w'
  unfolding process_order
  process_order-Leaves msg w = by_message (read_order ctx.parsers msg) refl
    where
      by_check :
          (o : Order) (c : Message.Result (Unit {0}))
          → read_order ctx.parsers msg ≡ Message.ok o
          → validate_order ctx.pairs_cache o ≡ c
          → Leaves w (process_order v f ctx msg w).0 (process_order v f ctx msg w).1
      by_check o (Message.err x) e c = rw (e, c, process_order)
      by_check o (Message.ok u) e c = rw (e, c, process_order) (dispatch-Leaves o.tif o w)

      by_message :
          (m : Message.Result Order)
          → read_order ctx.parsers msg ≡ m
          → Leaves w (process_order v f ctx msg w).0 (process_order v f ctx msg w).1
      by_message (Message.err x) e = rw (e, process_order)
      by_message (Message.ok o) e = by_check o (validate_order ctx.pairs_cache o) e refl
