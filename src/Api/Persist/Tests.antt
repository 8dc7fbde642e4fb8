-- ===== src/Api/Persist/Tests.antt =====
-- A job at concrete tables: a buyer who had no row for what he bought.
use serverless_matching_engi.Prelude.{
  ℕ, ◌+◌, ◌-◌, ◌*◌, ◌≤◌, List, [], ◌∷◌, none, some, ◌≡◌, refl, length, All, arith, eq_iff,
}
use serverless_matching_engi.Prelude.Int.{pos, pos_part}
use serverless_matching_engi.Types.{
  Order, Trade, Side, OrderType, TimeInForce, OrderStatus, SelfTradePreventionMode, Decimal,
  Quantity,
}
use serverless_matching_engi.Types.Pair.{parse_pair_id}
use serverless_matching_engi.Worker.Persist.{Balance, Tables, all_deltas, trade_deltas, add_delta}
use serverless_matching_engi.Worker.Persist.Settle.{paid, received}
use serverless_matching_engi.Api.Persist.{
  PersistJob, persist_trades, insert_trades, sort_deltas, insert_delta, upsert, upsert_all,
  process_persist_batch, process_persist_job, take_batches,
}
use serverless_matching_engi.Api.Persist.Settle.{available_of, locked_of, persist_trades_lem}
use serverless_matching_engi.Api.Persist.Supply.{IsCovered, supply, persist_trades-supply}
use serverless_matching_engi.Api.Persist.Single.{
  SameOutcome, process_persist_job-SameOutcome, FitsBatch, concat, take_batches_lem,
}

abbrev mul : Decimal → Quantity → ℕ
mul price qty = pos_part price * qty

abbrev buyer : Order
buyer = record {
  id = 1;
  user_id = "ann";
  pair_id = "BTC-USDT";
  side = Side.buy;
  order_type = OrderType.limit;
  tif = TimeInForce.ioc;
  price = some (pos 7);
  quantity = 4;
  remaining = 1;
  status = OrderStatus.cancelled;
  stp_mode = SelfTradePreventionMode.none;
  version = pos 1;
  sequence = pos 0;
  created_at = 0;
  updated_at = 0;
  client_order_id = none;
  received_at = none;
  matched_at = none;
  persisted_at = none;
}

abbrev trade : Trade
trade = record {
  id = 50;
  pair_id = "BTC-USDT";
  buy_order_id = 1;
  sell_order_id = 2;
  buyer_id = "ann";
  seller_id = "ben";
  price = pos 7;
  quantity = 3;
  sequence = pos 0;
  created_at = 0;
}

abbrev balances : List Balance
balances =
    record { user_id = "ann"; asset = "USDT"; available = 2; locked = 28 }
    ∷ record { user_id = "ben"; asset = "BTC"; available = 0; locked = 3 }
    ∷ []

abbrev tables : Tables
tables = record { orders = []; trades = []; balances = balances }

abbrev job : PersistJob
job = record { order = buyer; trades = trade ∷ []; lua_trades = (2, 3) ∷ [] }

abbrev settled : Tables
settled = record {
  orders = [];
  trades = trade ∷ [];
  balances =
      record { user_id = "ann"; asset = "USDT"; available = 2; locked = 7 }
      ∷ record { user_id = "ben"; asset = "BTC"; available = 0; locked = 0 }
      ∷ record { user_id = "ann"; asset = "BTC"; available = 3; locked = 0 }
      ∷ record { user_id = "ben"; asset = "USDT"; available = 21; locked = 0 }
      ∷ [];
}

settles : persist_trades mul (λ n. n) 9 (trade ∷ []) tables ≡ some settled
unfolding persist_trades all_deltas trade_deltas add_delta insert_trades sort_deltas insert_delta
    upsert upsert_all parse_pair_id
settles = refl

persist_trades_lem_example :
    (available_of "ann" "BTC" settled.balances
      ≡ available_of "ann" "BTC" balances + received "ann" "BTC" mul (trade ∷ []))
    × (locked_of "ann" "BTC" settled.balances
        ≡ locked_of "ann" "BTC" balances - paid "ann" "BTC" mul (trade ∷ []))
persist_trades_lem_example =
    persist_trades_lem "ann" "BTC" mul (λ n. n) 9 (trade ∷ []) tables settled (omega arith, tt)
      settles

covered : IsCovered mul (trade ∷ []) balances
unfolding parse_pair_id
covered user asset =
    ground (arith, eq_iff "ann" user, eq_iff "ben" user, eq_iff "USDT" asset, eq_iff "BTC" asset)

persist_trades-supply_example : supply "BTC" settled.balances ≡ supply "BTC" balances
persist_trades-supply_example =
    persist_trades-supply mul (λ n. n) 9 (trade ∷ []) tables settled covered settles "BTC"

process_persist_job-SameOutcome_example :
    SameOutcome
      (process_persist_batch mul (λ n. n) 9 (job ∷ []) tables)
      (process_persist_job mul (λ n. n) 9 job tables)
process_persist_job-SameOutcome_example = process_persist_job-SameOutcome mul (λ n. n) 9 job tables

abbrev jobs : List PersistJob
jobs = job ∷ job ∷ []

few : length jobs ≤ 2
few = omega arith

take_batches_lem_example :
    (concat (take_batches 2 jobs) ≡ jobs) × All FitsBatch (take_batches 2 jobs)
take_batches_lem_example = take_batches_lem 2 jobs few
