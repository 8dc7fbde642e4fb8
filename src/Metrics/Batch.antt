-- ===== src/Metrics/Batch.antt =====
-- The bounds of the metrics that are held between two flushes.
use serverless_matching_engi.Prelude.{
  ℕ, zero, suc, ◌-◌, ◌≤◌, ◌<◌, false, List, [], ◌∷◌, ◌++◌, ◌≡◌, arith, length, length-append, drop,
  ltb, Bool-cases, inl, inr,
}
use serverless_matching_engi.Metrics.{
  PairMetrics, MetricsBatch, Event, u64, new_batch, fresh, push_sample, record_pair, pair_index,
  update_at, record_order, flush, run_events,
}

pub record IsBounded (m : PairMetrics) : Type 0 where
  pub orders : m.order_count < u64
  pub trades : m.trade_count < u64
  pub samples : length m.latency_samples ≤ 1000

abbrev pub AllBounded : MetricsBatch → Type 0
AllBounded b = IsBounded b.btc × IsBounded b.eth × IsBounded b.sol

length-drop : (n : ℕ) (xs : List ℕ) → length (drop n xs) ≡ length xs - n
length-drop zero xs = omega arith
length-drop (suc n) [] = omega arith
length-drop (suc n) (x ∷ xs) = omega (arith, length-drop n xs)

kept : (pushed : List ℕ) → ltb 1000 (length pushed) ≡ false → length pushed ≤ 1000
kept pushed e = ground arith

push_sample-bound :
    (ms : ℕ) (samples : List ℕ) → length samples ≤ 1000 → length (push_sample ms samples) ≤ 1000
unfolding push_sample
push_sample-bound ms samples h =
    let pushed = samples ++ ms ∷ [] in
    let len = length-append samples (ms ∷ []) in
    elim (Bool-cases (ltb 1000 (length pushed))) [
      | inl e ↦ rw (push_sample, e) (omega (arith, h, len, length-drop 500 pushed))
      | inr e ↦ rw (push_sample, e) (kept pushed e)
    ]

record_pair-IsBounded :
    (trade_count lua_ms : ℕ) (m : PairMetrics)
    → IsBounded m
    → IsBounded (record_pair trade_count lua_ms m)
unfolding record_pair
record_pair-IsBounded trade_count lua_ms m h = record {
  orders = omega arith;
  trades = omega arith;
  samples = push_sample-bound lua_ms m.latency_samples h.samples;
}

update_at-AllBounded :
    (i : ℕ) (f : PairMetrics → PairMetrics) (b : MetricsBatch)
    → ((m : PairMetrics) → IsBounded m → IsBounded (f m))
    → AllBounded b
    → AllBounded (update_at i f b)
update_at-AllBounded zero f b keep h = (keep b.btc h.0, h.1, h.2)
update_at-AllBounded (suc zero) f b keep h = (h.0, keep b.eth h.1, h.2)
update_at-AllBounded (suc (suc i)) f b keep h = (h.0, h.1, keep b.sol h.2)

new_batch-AllBounded : AllBounded new_batch
unfolding new_batch
new_batch-AllBounded = (bounded, bounded, bounded)
  where
    bounded : IsBounded fresh
    bounded = record { orders = omega arith; trades = omega arith; samples = omega arith }

-- Whatever is recorded and flushed, each pair holds at most 1000 samples, and its counters stay
-- below 2^64.
pub run_events-AllBounded :
    (events : List Event) (b : MetricsBatch) → AllBounded b → AllBounded (run_events events b)
unfolding run_events record_order flush
run_events-AllBounded [] b h = h
run_events-AllBounded (Event.order pair_id trade_count lua_ms ∷ events) b h =
    run_events-AllBounded events (record_order pair_id trade_count lua_ms b) (
      update_at-AllBounded (pair_index pair_id) (record_pair trade_count lua_ms) b
        (record_pair-IsBounded trade_count lua_ms) h)
run_events-AllBounded (Event.flushed ∷ events) b h =
    run_events-AllBounded events new_batch new_batch-AllBounded
