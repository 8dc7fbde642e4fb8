-- ===== src/Metrics.antt =====
-- compute_percentiles of crates/shared/src/metrics.rs, and the metrics that crates/api/src/worker.rs
-- gathers between two writes to Valkey.
pub mod Percentiles
pub mod Batch
mod Tests
use serverless_matching_engi.Prelude.{
  ℕ, zero, suc, ◌+◌, ◌-◌, ◌*◌, ◌/◌, ◌%◌, ◌^◌, String, Bool, true, false, List, [], ◌∷◌, ◌++◌, leb,
  ltb, length, drop, min, if◌then◌else◌, str_eq,
}

-- `sort_unstable` on u64.
unfoldable pub insert : ℕ → List ℕ → List ℕ
insert x [] = x ∷ []
insert x (y ∷ ys) = let rest = insert x ys in if leb x y then x ∷ y ∷ ys else y ∷ rest

unfoldable pub sort : List ℕ → List ℕ
sort [] = []
sort (x ∷ xs) = insert x (sort xs)

-- `samples[idx]`; out of range, which would panic, is 0 here.
abbrev pub nth : ℕ → List ℕ → ℕ
nth i [] = 0
nth zero (x ∷ xs) = x
nth (suc i) (x ∷ xs) = nth i xs

-- `((pct / 100.0) * (n as f64 - 1.0)).round()`, whose value in f64 is the exact one for the three
-- percentages and fewer than 2^40 samples, then `min(n - 1)`.
unfoldable pub rank : ℕ → ℕ → ℕ
rank pct n = min ((pct * (n - 1) + 50) / 100) (n - 1)

unfoldable pub percentile : ℕ → List ℕ → ℕ
percentile pct sorted = nth (rank pct (length sorted)) sorted

unfoldable pub compute_percentiles : List ℕ → ℕ × ℕ × ℕ
compute_percentiles [] = (0, 0, 0)
compute_percentiles (x ∷ xs) =
    let sorted = sort (x ∷ xs) in (percentile 50 sorted, percentile 95 sorted, percentile 99 sorted)

-- The counters of one pair, and its samples, the oldest first.
pub record PairMetrics : Type 0 where
  pub order_count : ℕ
  pub trade_count : ℕ
  pub latency_samples : List ℕ

-- The three pairs.
pub record MetricsBatch : Type 0 where
  pub btc : PairMetrics
  pub eth : PairMetrics
  pub sol : PairMetrics

abbrev pub fresh : PairMetrics
fresh = record { order_count = 0; trade_count = 0; latency_samples = [] }

unfoldable pub new_batch : MetricsBatch
new_batch = record { btc = fresh; eth = fresh; sol = fresh }

abbrev pub u64 : ℕ
u64 = 2 ^ 64

-- From 1001 samples on, the oldest 500 go.
unfoldable pub push_sample : ℕ → List ℕ → List ℕ
push_sample ms samples =
    let pushed = samples ++ ms ∷ [] in if ltb 1000 (length pushed) then drop 500 pushed else pushed

unfoldable pub record_pair : ℕ → ℕ → PairMetrics → PairMetrics
record_pair trade_count lua_ms m = record {
  order_count = (m.order_count + 1) % u64;
  trade_count = (m.trade_count + trade_count) % u64;
  latency_samples = push_sample lua_ms m.latency_samples;
}

-- A pair that is not known counts as the first one.
unfoldable pub pair_index : String → ℕ
pair_index pair_id =
    if str_eq pair_id "BTC-USDT"
    then 0
    else if str_eq pair_id "ETH-USDT"
    then 1
    else if str_eq pair_id "SOL-USDT"
    then 2
    else 0

abbrev pub update_at : ℕ → (PairMetrics → PairMetrics) → MetricsBatch → MetricsBatch
update_at zero f b = record b { btc = f b.btc }
update_at (suc zero) f b = record b { eth = f b.eth }
update_at (suc (suc i)) f b = record b { sol = f b.sol }

unfoldable pub record_order : String → ℕ → ℕ → MetricsBatch → MetricsBatch
record_order pair_id trade_count lua_ms =
    update_at (pair_index pair_id) (record_pair trade_count lua_ms)

-- What a flush writes for a pair: the counters, which are written only above 0, and the samples.
pub record Flushed : Type 0 where
  pub pair_id : String
  pub metrics : PairMetrics

unfoldable pub flush : MetricsBatch → List Flushed × MetricsBatch
flush b = (
  record { pair_id = "BTC-USDT"; metrics = b.btc }
      ∷ record { pair_id = "ETH-USDT"; metrics = b.eth }
      ∷ record { pair_id = "SOL-USDT"; metrics = b.sol }
      ∷ [],
  new_batch,
)

-- What happens to a batch: an order is recorded, or the batch is flushed.
pub data Event : Type 0 where
  order : (pair_id : String) (trade_count lua_ms : ℕ) → Event
  flushed : Event

unfoldable pub run_events : List Event → MetricsBatch → MetricsBatch
run_events [] b = b
run_events (Event.order pair_id trade_count lua_ms ∷ events) b =
    run_events events (record_order pair_id trade_count lua_ms b)
run_events (Event.flushed ∷ events) b = run_events events (flush b).1
