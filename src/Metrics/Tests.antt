-- ===== src/Metrics/Tests.antt =====
-- Percentiles and a batch at concrete samples.
use serverless_matching_engi.Prelude.{List, [], ◌∷◌, ◌≡◌, refl, arith}
use serverless_matching_engi.Metrics.{
  compute_percentiles, percentile, rank, sort, insert, Event, MetricsBatch, fresh,
}
use serverless_matching_engi.Metrics.Batch.{AllBounded, IsBounded}

two_values : compute_percentiles (10 ∷ 20 ∷ []) ≡ (20, 20, 20)
unfolding compute_percentiles percentile rank sort insert
two_values = refl

abbrev events : List Event
events = Event.order "ETH-USDT" 2 7 ∷ Event.flushed ∷ Event.order "BTC-USDT" 0 4 ∷ []

abbrev start : MetricsBatch
start = record { btc = fresh; eth = fresh; sol = fresh }

start-AllBounded : AllBounded start
start-AllBounded = (empty, empty, empty)
  where
    empty : IsBounded fresh
    empty = record { orders = omega arith; trades = omega arith; samples = omega arith }
