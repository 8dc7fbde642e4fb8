-- ===== src/Worker/Process.antt =====
-- process_order of crates/gateway/src/worker.rs, from the message to the tables: read, validate,
-- refuse FOK, compute the balance lock, match in Valkey, build the trades, persist. Left out are the
-- refresh of the cached views and the push to subscribers, which come last, and the wait between
-- the match and the transaction. Only for a FOK order can a failing refresh fail the call.
pub mod Locks
pub mod Errors
pub mod Settles
pub mod Rows
mod Tests
use Prim.Native.String.{◌++◌ as append}
use serverless_matching_engi.Prelude.{
  ℕ, String, Bool, true, false, ◌||◌, Option, none, some, List, [], ◌∷◌, map, str_eq, if◌then◌else◌,
  suc, ◌+◌,
}
use serverless_matching_engi.Prelude.Int.{ℤ, pos, pos_part}
use serverless_matching_engi.Types.{
  Order, Side, OrderStatus, TimeInForce, Trade, Uuid, DateTime, Decimal, Quantity,
}
use serverless_matching_engi.Types.Pair.{parse_pair_id}
use serverless_matching_engi.Cache.Scale.{decimal_to_i64}
use serverless_matching_engi.Cache.Crates.{Crates}
use serverless_matching_engi.Cache.Valkey.{Valkey}
use serverless_matching_engi.Cache.Match.{
  PairKeys, LuaTrade, LuaMatchResult, MatchError, MatchReply, match_order_lua,
}
use serverless_matching_engi.Cache.Match
use serverless_matching_engi.Worker.Message.{
  QueuedOrderMsg, Parsers, PairConfig, read_order, validate_order,
}
use serverless_matching_engi.Worker.Message
use serverless_matching_engi.Worker.Persist.{Tables, persist_order}

pub data Failure : Type 0 where
  refused : Message.Error → Failure
  invalid_pair_id unknown_pair_keys persist_failed : Failure
  lua_failed : MatchError → Failure

-- How a call ends. A cancelled FOK order is neither matched nor persisted.
pub data Outcome : Type 0 where
  failed : Failure → Outcome
  fok_cancelled : Order → Outcome
  processed : Order → List Trade → Outcome

-- The asset and the scaled amount to lock, with the product of rust_decimal: quote asset and cost
-- for a buyer (0 without a price), base asset and quantity for a seller.
unfoldable pub lock_params : (Decimal → Decimal → Decimal) → String → String → Order → String × ℤ
lock_params mul base quote o = elim o.side [
  | Side.buy ↦ (quote, decimal_to_i64 (mul (Message.or_else o.price (pos 0)) (pos o.quantity)))
  | Side.sell ↦ (base, decimal_to_i64 (pos o.quantity))
]

-- Step 6: a trade of the reply, with the incoming order on its side.
unfoldable pub build_trade : (ℕ → Uuid) → DateTime → Order → ℕ → LuaTrade → Trade
build_trade new_uuid now o n t = record {
  id = new_uuid n;
  pair_id = o.pair_id;
  buy_order_id = elim o.side [ Side.buy ↦ o.id | Side.sell ↦ t.resting_order_id ];
  sell_order_id = elim o.side [ Side.buy ↦ t.resting_order_id | Side.sell ↦ o.id ];
  buyer_id = t.buyer_id;
  seller_id = t.seller_id;
  price = t.price;
  quantity = t.quantity;
  sequence = pos 0;
  created_at = now;
}

unfoldable pub build_trades : (ℕ → Uuid) → DateTime → Order → ℕ → List LuaTrade → List Trade
build_trades new_uuid now o n [] = []
build_trades new_uuid now o n (t ∷ ts) =
    build_trade new_uuid now o n t ∷ build_trades new_uuid now o (suc n) ts

-- What the call takes from outside: the crates, the clock, the products of rust_decimal, the
-- caches of the worker state, and the test for a `warmup` order, which is not persisted.
pub record Context : Type 0 where
  pub parsers : Parsers
  pub crates : Crates
  pub new_uuid : ℕ → Uuid
  pub now : DateTime
  pub mul : Decimal → Decimal → Decimal
  pub cost : Decimal → Quantity → ℕ
  pub increment : ℤ → ℤ
  pub pairs_cache : String → Option PairConfig
  pub pair_keys : String → Option PairKeys
  pub starts_with_warmup : String → Bool

abbrev pub is_warmup : Context → Order → Bool
is_warmup ctx o = elim o.client_order_id [ none ↦ false | some id ↦ ctx.starts_with_warmup id ]

module _ (v : Valkey) (exponent_form : ℕ → String) (ctx : Context) where
  open v use {Db}

  pub record World : Type 0 where
    pub db : Db
    pub tables : Tables

  -- The order with the outcome of the match.
  abbrev pub matched : Order → LuaMatchResult → Order
  matched o r = record o { remaining = r.remaining; status = r.status; matched_at = some ctx.now }

  unfoldable pub persist : Order → LuaMatchResult → Tables → Db → Outcome × World
  persist o r tables db =
      let trades = build_trades ctx.new_uuid ctx.now o 0 r.trades in
      if is_warmup ctx o
      then (Outcome.processed o trades, record { db = db; tables = tables })
      else elim (persist_order ctx.cost ctx.increment ctx.now o trades
          (map (λ t. (t.resting_order_id, t.quantity)) r.trades) tables) [
            | none ↦ (Outcome.failed Failure.persist_failed, record { db = db; tables = tables })
            | some tables' ↦ (Outcome.processed o trades, record { db = db; tables = tables' })
          ]

  unfoldable pub after_match : Order → World → MatchReply → Db → Outcome × World
  after_match o w (MatchReply.err e) db' =
      (Outcome.failed (Failure.lua_failed e), record { db = db'; tables = w.tables })
  after_match o w (MatchReply.ok r) db' = persist (matched o r) r w.tables db'

  unfoldable pub match_and_persist : Order → PairKeys → String → ℤ → World → Outcome × World
  match_and_persist o keys asset amount w =
      let (reply, db') = match_order_lua v exponent_form ctx.crates o keys asset amount w.db in
      after_match o w reply db'

  -- Steps 3 to 5.
  unfoldable pub lock_and_match : Order → World → Outcome × World
  lock_and_match o w = elim (parse_pair_id o.pair_id) [
    | none ↦ (Outcome.failed Failure.invalid_pair_id, w)
    | some (base, quote) ↦ elim (ctx.pair_keys o.pair_id) [
      | none ↦ (Outcome.failed Failure.unknown_pair_keys, w)
      | some keys ↦
          let (asset, amount) = lock_params ctx.mul base quote o in
          match_and_persist o keys asset amount w
    ]
  ]

  abbrev pub cancel : Order → Order
  cancel o = record o { status = OrderStatus.cancelled }

  -- An order that must be filled at once or not at all is cancelled; others are matched.
  unfoldable pub dispatch : TimeInForce → Order → World → Outcome × World
  dispatch TimeInForce.fok o w = (Outcome.fok_cancelled (cancel o), w)
  dispatch TimeInForce.gtc o w = lock_and_match o w
  dispatch TimeInForce.ioc o w = lock_and_match o w

  unfoldable pub process_order : QueuedOrderMsg → World → Outcome × World
  process_order msg w = elim (read_order ctx.parsers msg) [
    | Message.err e ↦ (Outcome.failed (Failure.refused e), w)
    | Message.ok o ↦ elim (validate_order ctx.pairs_cache o) [
      | Message.err e ↦ (Outcome.failed (Failure.refused e), w)
      | Message.ok u ↦ dispatch o.tif o w
    ]
  ]
