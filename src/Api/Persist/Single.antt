-- ===== src/Api/Persist/Single.antt =====
-- The two ways to persist a job in crates/api/src/routes.rs, and the batches of the worker.
use serverless_matching_engi.Prelude.{
  ℕ, zero, suc, ◌≤◌, ◌<◌, Bool, true, false, Option, none, some, List, [], ◌∷◌, ◌++◌, ◌≡◌, refl, ap,
  ◌∙◌, append-nil, Option-cases, inl, inr, arith, length, All,
}
use serverless_matching_engi.Prelude.Int.{ℤ}
use serverless_matching_engi.Types.{Trade, DateTime, Decimal, Quantity}
use serverless_matching_engi.Worker.Persist.{Tables, all_deltas, release_leftover}
use serverless_matching_engi.Api.Persist.{
  PersistJob, insert_order, insert_orders, insert_trades, batch_trades, sort_deltas, upsert_all,
  update_resting_of, update_incoming, release_batch, process_persist_batch, persist_trades,
  process_persist_job, try_recv, take_batches,
}

-- By the outcome of the transaction: the outcome of the single steps.
abbrev pub SameOutcome : Option Tables → Bool × Tables → Type 0
SameOutcome none r = r.0 ≡ false
SameOutcome (some t) r = r ≡ (true, t)

module _ (mul : Decimal → Quantity → ℕ) (increment : ℤ → ℤ) (now : DateTime) where
  -- A transaction of the trades alone, which for no trades does nothing.
  persist_trades-elim :
      (trades : List Trade) (t : Tables)
      → persist_trades mul increment now trades t ≡ elim (all_deltas mul trades []) [
        | none ↦ none
        | some deltas ↦ some (record t {
          trades = insert_trades trades t.trades;
          balances = upsert_all (sort_deltas deltas) t.balances;
        })
      ]
  unfolding persist_trades insert_trades upsert_all sort_deltas all_deltas
  persist_trades-elim [] t = refl
  persist_trades-elim (trade ∷ trades) t = refl

  -- Persisting a job step by step does what a batch of this one job does: it succeeds with the same
  -- tables, or both fail.
  pub process_persist_job-SameOutcome :
      (job : PersistJob) (t : Tables)
      → SameOutcome
          (process_persist_batch mul increment now (job ∷ []) t)
          (process_persist_job mul increment now job t)
  unfolding process_persist_batch process_persist_job batch_trades insert_orders update_resting_of
      update_incoming release_batch
  process_persist_job-SameOutcome job t =
      rw
        (
          process_persist_batch,
          process_persist_job,
          batch_trades,
          append-nil job.trades,
          persist_trades-elim job.trades inserted,
        )
        (elim (Option-cases (all_deltas mul job.trades [])) [
          | inl e ↦ rw e
          | inr (ds, e) ↦
              let balances = upsert_all (sort_deltas ds) t.balances in
              elim (Option-cases (release_leftover mul job.order balances)) [
                | inl f ↦ rw (e, release_batch, f)
                | inr (rows, f) ↦ rw (e, release_batch, f, batch_trades, append-nil job.trades)
              ]
        ])
    where
      inserted : Tables
      inserted = record t { orders = insert_order now job.order t.orders }

abbrev pub FitsBatch : List PersistJob → Type 0
FitsBatch batch = (0 < length batch) × (length batch ≤ 50)

abbrev pub concat : List (List PersistJob) → List PersistJob
concat [] = []
concat (batch ∷ batches) = batch ++ concat batches

try_recv_lem :
    (room : ℕ) (jobs : List PersistJob)
    → let (batch, rest) = try_recv room jobs in
      (batch ++ rest ≡ jobs) × (length batch ≤ room) × (length rest ≤ length jobs)
unfolding try_recv
try_recv_lem zero jobs = (refl, omega arith, omega arith)
try_recv_lem (suc room) [] = (refl, omega arith, omega arith)
try_recv_lem (suc room) (job ∷ jobs) =
    let later = try_recv_lem room jobs in
    (ap (λ js. job ∷ js) later.0, omega (arith, later.1), omega (arith, later.2))

-- With as much fuel as there are jobs, the batches hold every job once and in order, and each has
-- from 1 to 50.
pub take_batches_lem :
    (fuel : ℕ) (jobs : List PersistJob)
    → length jobs ≤ fuel
    → (concat (take_batches fuel jobs) ≡ jobs) × All FitsBatch (take_batches fuel jobs)
unfolding take_batches
take_batches_lem zero [] h = (refl, tt)
take_batches_lem zero (job ∷ jobs) h = absurd (omega (arith, h))
take_batches_lem (suc fuel) [] h = (refl, tt)
take_batches_lem (suc fuel) (job ∷ jobs) h =
    let one = try_recv_lem 49 jobs in
    let later = take_batches_lem fuel (try_recv 49 jobs).1 (omega (arith, h, one)) in
    (
      ap (λ js. job ∷ js) (ap (λ js. (try_recv 49 jobs).0 ++ js) later.0 ∙ one.0),
      ((omega arith, omega (arith, one.1)), later.1),
    )
