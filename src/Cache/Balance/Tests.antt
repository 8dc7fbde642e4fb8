-- ===== src/Cache/Balance/Tests.antt =====
-- The two locks of a balance at a database in memory.
use serverless_matching_engi.Prelude.{ℕ, String, some, none, [], ◌∷◌, ◌≡◌, refl}
use serverless_matching_engi.Prelude.Int.{pos}
use serverless_matching_engi.Text.{parse_i64, parse_magnitude, parse_digits}
use serverless_matching_engi.Types.{Side, OrderType, TimeInForce, SelfTradePreventionMode}
use serverless_matching_engi.Cache.Memory.{Memory, memory}
use serverless_matching_engi.Cache.Valkey.{Bound}
use serverless_matching_engi.Cache.Script.{Argv}
use serverless_matching_engi.Cache.Double.{to_double, magnitude}
use serverless_matching_engi.Cache.Balance.{lock_balance_redis}

abbrev exponent : ℕ → String
exponent n = ""

abbrev rich : Memory
rich = record { entries = ("balance:carol:ETH", "available", "12") ∷ []; members = []; texts = [] }

abbrev seller : Argv
seller = record {
  order_id = "9";
  side = Side.sell;
  order_type = OrderType.market;
  tif = TimeInForce.ioc;
  price_i = pos 0;
  qty_i = 12;
  user_id = "carol";
  stp_mode = SelfTradePreventionMode.none;
  ts_ms = "3";
  pair_id = "ETH-USDT";
  score = pos 0;
  max_score = Bound.plus_inf;
  lock_asset = "ETH";
  lock_amount = pos 12;
}

grants : lock_balance_redis memory "carol" "ETH" (pos 12) rich ≡ some rich
unfolding lock_balance_redis parse_i64 parse_magnitude parse_digits to_double magnitude
grants = refl

refuses : lock_balance_redis memory "carol" "ETH" (pos 13) rich ≡ none
unfolding lock_balance_redis parse_i64 parse_magnitude parse_digits to_double magnitude
refuses = refl
