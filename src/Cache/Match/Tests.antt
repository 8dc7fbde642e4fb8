-- ===== src/Cache/Match/Tests.antt =====
-- The script's reply, read at an input.
use serverless_matching_engi.Prelude.{
  ℕ, ◌≤◌, ◌<◌, String, [], ◌∷◌, none, some, map, ◌≡◌, refl, arith,
}
use serverless_matching_engi.Prelude.Int.{pos, pos_part}
use serverless_matching_engi.Text.{parse_i64, parse_digits, parse_magnitude}
use serverless_matching_engi.Types.{
  Side, OrderType, TimeInForce, OrderStatus, SelfTradePreventionMode,
}
use serverless_matching_engi.Cache.Crates.{Crates}
use serverless_matching_engi.Cache.Fields.{quantity_of}
use serverless_matching_engi.Cache.Valkey.{Bound}
use serverless_matching_engi.Cache.Memory.{memory}
use serverless_matching_engi.Cache.Script.{Argv, ScriptState, result, final_status}
use serverless_matching_engi.Cache.Match.{LuaMatchResult, ok, parse_reply}
use serverless_matching_engi.Cache.Match.Reply.{exact, lua_trade, parse_reply-result}

abbrev crates : Crates
crates = record {
  uuid_to_string = λ id. "11";
  parse_uuid = λ s. elim (parse_i64 s) [ none ↦ none | some i ↦ some (pos_part i) ];
  timestamp_millis = λ t. pos t;
  timestamp_opt = λ s n. none;
  now = 0;
}

abbrev exponent : ℕ → String
exponent n = "1e+14"

abbrev buyer : Argv
buyer = record {
  order_id = "1";
  side = Side.buy;
  order_type = OrderType.limit;
  tif = TimeInForce.gtc;
  price_i = pos 101;
  qty_i = 7;
  user_id = "user-1";
  stp_mode = SelfTradePreventionMode.none;
  ts_ms = "0";
  pair_id = "BTC-USDT";
  score = pos 101;
  max_score = Bound.at (pos 101);
  lock_asset = "USDT";
  lock_amount = pos 5;
}

-- After a trade for 3 of 7.
abbrev after_trade : ScriptState memory exponent
after_trade = record {
  db = record { entries = []; members = []; texts = [] };
  remaining_i = 4;
  status = OrderStatus.new;
  trades =
      record {
        resting_id = "11";
        price_i = pos 100;
        qty_i = 3;
        buyer_id = "user-1";
        seller_id = "user-2";
      }
      ∷ [];
}

parse_reply-result_example :
    (r : LuaMatchResult) × (parse_reply crates (result memory exponent buyer after_trade) ≡ ok r)
    × (r.status ≡ final_status memory exponent buyer after_trade)
    × (r.trades ≡ map (lua_trade crates) after_trade.trades)
    × (4 < exact → r.remaining ≡ quantity_of (pos 4))
    × (exact ≤ 4 → parse_i64 (exponent 4) ≡ none → r.remaining ≡ 0)
unfolding parse_i64 parse_digits parse_magnitude
parse_reply-result_example =
    parse_reply-result crates memory exponent buyer after_trade (omega arith)
      ((refl, refl, omega arith), tt)
