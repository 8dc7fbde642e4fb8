-- ===== src/Worker/Persist/Tests.antt =====
-- A settlement at concrete tables.
use serverless_matching_engi.Prelude.{ℕ, ◌*◌, List, [], ◌∷◌, none, some, map, ◌≡◌, refl, arith}
use serverless_matching_engi.Prelude.Int.{pos, pos_part}
use serverless_matching_engi.Types.{
  Order, Trade, Side, OrderType, TimeInForce, OrderStatus, SelfTradePreventionMode, Decimal,
  Quantity,
}
use serverless_matching_engi.Types.Pair.{parse_pair_id}
use serverless_matching_engi.Worker.Persist.{
  Balance, Tables, persist_order, all_deltas, trade_deltas, add_delta, update_balances, leftover,
  release, release_leftover, update_resting,
}
use serverless_matching_engi.Worker.Persist.Release
use serverless_matching_engi.Worker.Persist.Release.{persist_order_lem}

abbrev mul : Decimal → Quantity → ℕ
mul price qty = pos_part price * qty

-- A buyer at 101 who got 3 of 5 at 100, and was cancelled.
abbrev buyer : Order
buyer = record {
  id = 1;
  user_id = "user-1";
  pair_id = "BTC-USDT";
  side = Side.buy;
  order_type = OrderType.limit;
  tif = TimeInForce.ioc;
  price = some (pos 101);
  quantity = 5;
  remaining = 2;
  status = OrderStatus.cancelled;
  stp_mode = SelfTradePreventionMode.none;
  version = pos 1;
  sequence = pos 0;
  created_at = 0;
  updated_at = 0;
  client_order_id = none;
  received_at = none;
  matched_at = none;
  persisted_at = none;
}

abbrev trades : List Trade
trades =
    record {
      id = 1000;
      pair_id = "BTC-USDT";
      buy_order_id = 1;
      sell_order_id = 11;
      buyer_id = "user-1";
      seller_id = "user-2";
      price = pos 100;
      quantity = 3;
      sequence = pos 0;
      created_at = 0;
    }
    ∷ []

abbrev balances : List Balance
balances =
    record { user_id = "user-1"; asset = "USDT"; available = 0; locked = 505 }
    ∷ record { user_id = "user-1"; asset = "BTC"; available = 0; locked = 0 }
    ∷ record { user_id = "user-2"; asset = "BTC"; available = 0; locked = 3 }
    ∷ record { user_id = "user-2"; asset = "USDT"; available = 0; locked = 0 }
    ∷ []

abbrev tables : Tables
tables = record { orders = []; trades = []; balances = balances }

abbrev settled : Tables
settled = record {
  orders = record buyer { version = pos 2; updated_at = 9 } ∷ [];
  trades = trades;
  balances =
      record { user_id = "user-1"; asset = "USDT"; available = 202; locked = 3 }
      ∷ record { user_id = "user-1"; asset = "BTC"; available = 3; locked = 0 }
      ∷ record { user_id = "user-2"; asset = "BTC"; available = 0; locked = 0 }
      ∷ record { user_id = "user-2"; asset = "USDT"; available = 300; locked = 0 }
      ∷ [];
}

-- Of the 505 locked, 300 are paid and 202 released: the better price leaves 3 locked.
settles : persist_order mul (λ n. pos 2) 9 buyer trades [] tables ≡ some settled
unfolding persist_order all_deltas trade_deltas add_delta update_balances leftover release
    release_leftover update_resting parse_pair_id
settles = refl

persist_order_lem_example : settled.balances ≡ map (Release.settled mul trades buyer) balances
persist_order_lem_example =
    persist_order_lem mul (λ n. pos 2) 9 buyer trades [] tables settled (omega arith, tt)
      (omega arith) settles
