-- ===== src/Cache/Script.antt =====
-- crates/shared/src/lua/match_order.lua, which cache.rs runs by EVAL: the balance lock and the
-- match in one atomic step. The codes in ARGV are given as the values that they are printed from;
-- numbers are exact (doubles below 2^53), but for the balance lock, which computes with doubles.
-- That the server prints an amount from 10^17 units on with an exponent, which HINCRBY refuses, is
-- left out.
-- The loop body is `visit`; where the source sets `match_break`, the round is a `halt`.
mod Terms
pub mod Rounds
pub mod Quantity
pub mod Limits
mod Tests
unfoldable pub use Terms.*
use serverless_matching_engi.Prelude.{
  ℕ, suc, ◌+◌, ◌-◌, ◌^◌, min, String, Bool, true, false, ◌||◌, ◌&&◌, not, Option, none, some, List,
  [], ◌∷◌, ◌++◌, ltb, ◌==◌, if◌then◌else◌, str_eq, length, map,
}
use serverless_matching_engi.Prelude.Int.{ℤ, pos, negsuc, neg, pos_part, neg_part, ltb_ℤ, leb_ℤ}
use serverless_matching_engi.Types.{
  Side, OrderType, TimeInForce, OrderStatus, SelfTradePreventionMode,
}
use serverless_matching_engi.Cache.Double.{to_double}
use serverless_matching_engi.Text.{print_i64, parse_i64}
use serverless_matching_engi.Cache.Fields.{
  side_char, order_type_char, tif_char, status_char, stp_char, parse_stp,
}
use serverless_matching_engi.Cache.Valkey.{Valkey, Bound}
use Prim.Native.String.{◌++◌ as append}

module _ (v : Valkey) (exponent_form : ℕ → String) where
  open v use {Db, hget, zrangebyscore, hincrby, hset, zadd, zrem, del, expire, incr}

  pub record ScriptState : Type 0 where
    pub db : Db
    pub remaining_i : ℕ
    pub status : OrderStatus
    pub trades : List ScriptTrade

  pub data Round : Type 0 where
    halt next : ScriptState → Round

  unfoldable pub hmget : String → Db → Resting
  hmget rkey db = record {
    price_i = number_or_zero (hget rkey "price_i" db);
    remaining_i = number_or_zero (hget rkey "remaining_i" db);
    user_id = or_text (hget rkey "user_id" db) "";
    stp = or_text (hget rkey "stp" db) "N";
    status = or_text (hget rkey "status" db) "";
    order_type = or_text (hget rkey "order_type" db) "L";
  }

  abbrev pub opp_key : Keys → Side → String
  opp_key k Side.buy = k.asks_key
  opp_key k Side.sell = k.bids_key

  abbrev pub own_key : Keys → Side → String
  own_key k Side.buy = k.bids_key
  own_key k Side.sell = k.asks_key

  abbrev pub rkey : String → String
  rkey rid = append "order:" rid

  -- ZREM and DEL of a resting order.
  abbrev pub drop_resting : Keys → Argv → String → Db → Db
  drop_resting k a rid db = del (rkey rid) (zrem (opp_key k a.side) rid db)

  -- The resting order after a fill that leaves `left` of it.
  abbrev pub keep_resting : Keys → Argv → String → ℕ → Db → Db
  keep_resting k a rid left db =
      if left == 0
      then drop_resting k a rid db
      else hset (rkey rid)
          (("remaining_i", tostring exponent_form (pos left)) ∷ ("status", "PF") ∷ []) db

  abbrev pub fill_i : ScriptState → Resting → ℕ
  fill_i s r = min s.remaining_i (pos_part r.remaining_i)

  unfoldable pub trade_with : Keys → Argv → String → Resting → ScriptState → ScriptState
  trade_with k a rid r s = record {
    db = keep_resting k a rid (pos_part r.remaining_i - fill_i s r) s.db;
    remaining_i = s.remaining_i - fill_i s r;
    status = s.status;
    trades = s.trades ++ script_trade a rid r (fill_i s r) ∷ [];
  }

  abbrev pub stop_taker : ScriptState → ScriptState
  stop_taker s = record s { remaining_i = 0; status = OrderStatus.cancelled }

  -- Self-trade prevention; with the mode `none` the trade goes on.
  unfoldable pub prevent :
      SelfTradePreventionMode → Keys → Argv → String → Resting → ScriptState → Round
  prevent SelfTradePreventionMode.none k a rid r s = next (trade_with k a rid r s)
  prevent SelfTradePreventionMode.cancel_maker k a rid r s =
      next (record s { db = drop_resting k a rid s.db })
  prevent SelfTradePreventionMode.cancel_taker k a rid r s = halt (stop_taker s)
  prevent SelfTradePreventionMode.cancel_both k a rid r s =
      halt (stop_taker (record s { db = drop_resting k a rid s.db }))

  unfoldable pub meet : Keys → Argv → String → Resting → ScriptState → Round
  meet k a rid r s =
      if is_consumed r
      then next s
      else if compatible a r
      then if str_eq a.user_id r.user_id
        then prevent (combined a.stp_mode r.stp) k a rid r s
        else next (trade_with k a rid r s)
      else halt s

  unfoldable pub visit : Keys → Argv → String → ScriptState → Round
  visit k a rid s = if s.remaining_i == 0 then halt s else meet k a rid (hmget (rkey rid) s.db) s

  unfoldable pub match_loop : Keys → Argv → List String → ScriptState → ScriptState
  match_loop k a [] s = s
  match_loop k a (rid ∷ rids) s = elim (visit k a rid s) [
    | halt s' ↦ s'
    | next s' ↦ match_loop k a rids s'
  ]

  abbrev pub is_cancelled : OrderStatus → Bool
  is_cancelled OrderStatus.cancelled = true
  is_cancelled _ = false

  -- The status after the loop, and the cancelled rest of an IOC order.
  unfoldable pub final_status : Argv → ScriptState → OrderStatus
  final_status a s =
      if is_cancelled s.status
      then OrderStatus.cancelled
      else if s.remaining_i == 0
      then OrderStatus.filled
      else elim a.tif [
        | TimeInForce.ioc ↦ OrderStatus.cancelled
        | _ ↦ if ltb s.remaining_i a.qty_i then OrderStatus.partially_filled else OrderStatus.new
      ]

  -- A GTC order with something left that is not cancelled goes to its own book.
  abbrev pub rests : Argv → ScriptState → Bool
  rests a s = elim a.tif [
    | TimeInForce.gtc ↦ ltb 0 s.remaining_i && not (is_cancelled (final_status a s))
    | _ ↦ false
  ]

  -- ZADD, HSET and EXPIRE of the incoming order.
  unfoldable pub rest_order : Keys → Argv → ScriptState → Db
  rest_order k a s = expire k.order_key 3600 (
      hset k.order_key
        (("id", a.order_id)
          ∷ ("pair_id", a.pair_id)
          ∷ ("side", side_char a.side)
          ∷ ("order_type", order_type_char a.order_type)
          ∷ ("tif", tif_char a.tif)
          ∷ ("price_i", tostring exponent_form a.price_i)
          ∷ ("qty_i", tostring exponent_form (pos a.qty_i))
          ∷ ("remaining_i", tostring exponent_form (pos s.remaining_i))
          ∷ ("status", status_char (final_status a s))
          ∷ ("stp", stp_char a.stp_mode)
          ∷ ("user_id", a.user_id)
          ∷ ("ts_ms", a.ts_ms)
          ∷ ("version", "1")
          ∷ [])
        (zadd (own_key k a.side) a.score a.order_id s.db))

  -- The five texts of each trade.
  unfoldable pub trade_texts : List ScriptTrade → List String
  trade_texts [] = []
  trade_texts (t ∷ ts) =
      t.resting_id
      ∷ tostring exponent_form t.price_i
      ∷ tostring exponent_form (pos t.qty_i)
      ∷ t.buyer_id
      ∷ t.seller_id
      ∷ trade_texts ts

  unfoldable pub result : Argv → ScriptState → List String
  result a s =
      "OK"
      ∷ tostring exponent_form (pos s.remaining_i)
      ∷ status_char (final_status a s)
      ∷ tostring exponent_form (pos (length s.trades))
      ∷ trade_texts s.trades

  abbrev pub balance_key : String → String → String
  balance_key user asset = append "balance:" (append user (append ":" asset))

  -- The guard of the balance lock: an asset and a positive amount.
  abbrev pub locks : Argv → Bool
  locks a = not (str_eq a.lock_asset "") && ltb_ℤ (pos 0) a.lock_amount

  abbrev pub available_of : Argv → Db → ℤ
  available_of a db = number_or_zero (hget (balance_key a.user_id a.lock_asset) "available" db)

  -- Fewer units are available than are to be locked, as doubles.
  abbrev pub is_short : Argv → Db → Bool
  is_short a db = ltb_ℤ (to_double (available_of a db)) (to_double a.lock_amount)

  -- The balance after the lock; `none` if there is too little.
  unfoldable pub lock_balance : Argv → Db → Option Db
  lock_balance a db =
      let amount = to_double a.lock_amount in
      if locks a
      then if is_short a db
        then none
        else some (
            hincrby (balance_key a.user_id a.lock_asset) "locked" amount
              (hincrby (balance_key a.user_id a.lock_asset) "available" (neg amount) db))
      else some db

  abbrev pub start : Argv → Db → ScriptState
  start a db = record { db = db; remaining_i = a.qty_i; status = OrderStatus.new; trades = [] }

  -- The ids that the match loop walks: at most 50, from the best price.
  unfoldable pub candidates : Keys → Argv → Db → List String
  candidates k a db = zrangebyscore (opp_key k a.side) Bound.minus_inf a.max_score (some (0, 50)) db

  unfoldable pub match_after_lock : Keys → Argv → Db → ScriptState
  match_after_lock k a db = match_loop k a (candidates k a db) (start a db)

  unfoldable pub finish : Keys → Argv → ScriptState → List String × Db
  finish k a s = (result a s, incr k.version_key (if rests a s then rest_order k a s else s.db))

  -- The reply and the database after the script.
  unfoldable pub match_script : Keys → Argv → Db → List String × Db
  match_script k a db = elim (lock_balance a db) [
    | none ↦ ("INSUFFICIENT_BALANCE" ∷ [], db)
    | some db' ↦ finish k a (match_after_lock k a db')
  ]
