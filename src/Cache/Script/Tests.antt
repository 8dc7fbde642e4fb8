-- ===== src/Cache/Script/Tests.antt =====
-- Runs of the match script on a database in memory, and its theorems at inputs.
use serverless_matching_engi.Prelude.{ℕ, ◌<◌, ◌≤◌, String, [], ◌∷◌, ◌≡◌, refl, All, length}
use serverless_matching_engi.Prelude.Int.{pos}
use serverless_matching_engi.Types.{
  Side, OrderType, TimeInForce, OrderStatus, SelfTradePreventionMode,
}
use serverless_matching_engi.Text.{parse_i64, parse_magnitude, parse_digits}
use serverless_matching_engi.Cache.Fields.{parse_stp}
use serverless_matching_engi.Cache.Valkey.{Bound}
use serverless_matching_engi.Cache.Memory.{Memory, memory}
use serverless_matching_engi.Cache.Script.{
  Keys, Argv, match_after_lock, match_loop, visit, meet, prevent, hmget, compatible, combined,
  trade_with, script_trade, candidates, final_status,
}
use serverless_matching_engi.Cache.Script.Quantity.{traded, Tells, match_after_lock-Tells}
use serverless_matching_engi.Cache.Script.Limits.{IsProper, match_after_lock-IsProper}

abbrev exponent : ℕ → String
exponent n = "1e+14"

abbrev keys : Keys
keys = record {
  bids_key = "book:BTC-USDT:bids";
  asks_key = "book:BTC-USDT:asks";
  version_key = "version:BTC-USDT";
  order_key = "order:1";
}

abbrev buyer : TimeInForce → ℕ → Argv
buyer tif qty = record {
  order_id = "1";
  side = Side.buy;
  order_type = OrderType.limit;
  tif = tif;
  price_i = pos 101;
  qty_i = qty;
  user_id = "user-1";
  stp_mode = SelfTradePreventionMode.cancel_taker;
  ts_ms = "0";
  pair_id = "BTC-USDT";
  score = pos 101;
  max_score = Bound.at (pos 101);
  lock_asset = "USDT";
  lock_amount = pos 5;
}

-- An ask of another user and, behind it, one of the buyer.
abbrev book : Memory
book = record {
  entries =
      ("order:11", "user_id", "user-2")
      ∷ ("order:11", "price_i", "100")
      ∷ ("order:11", "remaining_i", "3")
      ∷ ("order:12", "user_id", "user-1")
      ∷ ("order:12", "price_i", "101")
      ∷ ("order:12", "remaining_i", "4")
      ∷ [];
  members = ("book:BTC-USDT:asks", pos 100, "11") ∷ ("book:BTC-USDT:asks", pos 101, "12") ∷ [];
  texts = [];
}

fills_one_level :
    traded memory exponent keys
      (buyer TimeInForce.gtc 2)
      (match_after_lock memory exponent keys (buyer TimeInForce.gtc 2) book)
    ≡ 2
unfolding match_after_lock match_loop visit meet prevent hmget compatible combined trade_with
    script_trade candidates parse_i64 parse_stp parse_magnitude parse_digits
fills_one_level = refl

-- The buyer's own ask cancels the rest, which the reply gives as 0.
stopped_by_own_ask :
    let s = match_after_lock memory exponent keys (buyer TimeInForce.gtc 5) book in
    (s.status ≡ OrderStatus.cancelled) × (s.remaining_i ≡ 0) × (length s.trades ≡ 1)
unfolding match_after_lock match_loop visit meet prevent hmget compatible combined trade_with
    script_trade candidates parse_i64 parse_stp parse_magnitude parse_digits
stopped_by_own_ask = (refl, refl, refl)

match_after_lock-Tells_example :
    let s = match_after_lock memory exponent keys (buyer TimeInForce.gtc 5) book in
    All (λ t. 0 < t.qty_i) s.trades
    × (traded memory exponent keys (buyer TimeInForce.gtc 5) s ≤ 5)
    × Tells memory exponent keys
        (buyer TimeInForce.gtc 5)
        s
        (final_status memory exponent (buyer TimeInForce.gtc 5) s)
match_after_lock-Tells_example =
    match_after_lock-Tells memory exponent keys (buyer TimeInForce.gtc 5) book

match_after_lock-IsProper_example :
    All
      (IsProper (buyer TimeInForce.ioc 5))
      (match_after_lock memory exponent keys (buyer TimeInForce.ioc 5) book).trades
match_after_lock-IsProper_example =
    match_after_lock-IsProper memory exponent keys (buyer TimeInForce.ioc 5) book
