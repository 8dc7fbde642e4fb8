-- ===== src/Api/Persist.antt =====
-- The persistence of matched orders in crates/api/src/routes.rs: process_persist_batch, for which
-- spawn_persist_worker collects up to 50 jobs, and process_persist_job, for one. Tables are lists
-- of rows, and the statements are modelled by what their text says; a failing statement is not
-- modelled, only a pair that cannot be parsed. The log of audit events, which the program does not
-- read, is left out.
pub mod Settle
pub mod Single
pub mod Supply
mod Tests
use Prim.Native.String.{compare as compare_str}
use Prim.Native.Nat.{Ordering}
use serverless_matching_engi.Prelude.{
  ℕ, suc, zero, ◌+◌, ◌-◌, String, Bool, true, false, ◌&&◌, ◌||◌, not, Option, none, some, List, [],
  ◌∷◌, ◌++◌, ◌==◌, str_eq, if◌then◌else◌, map,
}
use serverless_matching_engi.Prelude.Int.{ℤ}
use serverless_matching_engi.Types.{Order, OrderStatus, Trade, Uuid, DateTime, Decimal, Quantity}
use serverless_matching_engi.Worker.Persist.{
  Balance, Delta, Fill, Tables, is_of, is_open, all_deltas, close_row, release_leftover,
}

-- An order, its trades, and what the script filled of the resting orders.
pub record PersistJob : Type 0 where
  pub order : Order
  pub trades : List Trade
  pub lua_trades : List Fill

abbrev pub same_client_id : Option String → Option String → Bool
same_client_id (some a) (some b) = str_eq a b
same_client_id _ _ = false

-- A row with the id, or with the user and the client's own id for the order, if there is one: both
-- are unique.
abbrev pub conflicts : Order → Order → Bool
conflicts o row =
    (row.id == o.id)
    || (str_eq row.user_id o.user_id && same_client_id row.client_order_id o.client_order_id)

-- INSERT INTO orders .. ON CONFLICT DO NOTHING.
abbrev pub order_exists : Order → List Order → Bool
order_exists o [] = false
order_exists o (row ∷ rows) = if conflicts o row then true else order_exists o rows

unfoldable pub insert_order : DateTime → Order → List Order → List Order
insert_order now o rows =
    if order_exists o rows then rows else rows ++ record o { persisted_at = some now } ∷ []

unfoldable pub insert_orders : DateTime → List PersistJob → List Order → List Order
insert_orders now [] rows = rows
insert_orders now (job ∷ batch) rows = insert_orders now batch (insert_order now job.order rows)

-- INSERT INTO trades .. ON CONFLICT DO NOTHING.
abbrev pub trade_exists : Uuid → List Trade → Bool
trade_exists id [] = false
trade_exists id (t ∷ rows) = if t.id == id then true else trade_exists id rows

unfoldable pub insert_trades : List Trade → List Trade → List Trade
insert_trades [] rows = rows
insert_trades (t ∷ ts) rows =
    insert_trades ts (if trade_exists t.id rows then rows else rows ++ t ∷ [])

-- The trades of all jobs, in their order.
unfoldable pub batch_trades : List PersistJob → List Trade
batch_trades [] = []
batch_trades (job ∷ batch) = job.trades ++ batch_trades batch

-- `sort_by_key` with user and asset as the key.
abbrev pub precedes : Delta → Delta → Bool
precedes d e = elim (compare_str d.user_id e.user_id) [
  | Ordering.lt ↦ true
  | Ordering.gt ↦ false
  | Ordering.eq ↦ elim (compare_str d.asset e.asset) [ Ordering.gt ↦ false | _ ↦ true ]
]

unfoldable pub insert_delta : Delta → List Delta → List Delta
insert_delta d [] = d ∷ []
insert_delta d (e ∷ ds) =
    let rest = insert_delta d ds in if precedes d e then d ∷ e ∷ ds else e ∷ rest

unfoldable pub sort_deltas : List Delta → List Delta
sort_deltas [] = []
sort_deltas (d ∷ ds) = insert_delta d (sort_deltas ds)

-- INSERT INTO balances .. ON CONFLICT (user_id, asset) DO UPDATE: a user with no row for the asset
-- gets one.
abbrev pub settle : Delta → Balance → Balance
settle d b = record b { locked = b.locked - d.locked_dec; available = b.available + d.avail_inc }

unfoldable pub upsert : Delta → List Balance → List Balance
upsert d [] =
    record { user_id = d.user_id; asset = d.asset; available = d.avail_inc; locked = 0 } ∷ []
upsert d (b ∷ rows) = if is_of b.user_id b.asset d then settle d b ∷ rows else b ∷ upsert d rows

unfoldable pub upsert_all : List Delta → List Balance → List Balance
upsert_all [] rows = rows
upsert_all (d ∷ ds) rows = upsert_all ds (upsert d rows)

-- UPDATE orders .. for one trade: what is filled of an open resting order.
abbrev pub fill_one : (ℤ → ℤ) → DateTime → Fill → Order → Order
fill_one increment now (id, qty) o =
    if (o.id == id) && is_open o.status
    then record o {
      remaining = o.remaining - qty;
      status = if o.remaining - qty == 0 then OrderStatus.filled else OrderStatus.partially_filled;
      version = increment o.version;
      updated_at = now;
    }
    else o

unfoldable pub update_resting_orders_after_lua :
    (ℤ → ℤ) → DateTime → List Fill → List Order → List Order
update_resting_orders_after_lua increment now [] rows = rows
update_resting_orders_after_lua increment now (fill ∷ fills) rows =
    update_resting_orders_after_lua increment now fills (map (fill_one increment now fill) rows)

unfoldable pub update_resting_of : (ℤ → ℤ) → DateTime → List PersistJob → List Order → List Order
update_resting_of increment now [] rows = rows
update_resting_of increment now (job ∷ batch) rows =
    update_resting_of increment now batch
      (update_resting_orders_after_lua increment now job.lua_trades rows)

-- UPDATE orders: what is left of the incoming order, and its status.
unfoldable pub update_order_db : (ℤ → ℤ) → DateTime → Order → List Order → List Order
update_order_db increment now o = map (close_row increment now o)

unfoldable pub update_incoming : (ℤ → ℤ) → DateTime → List PersistJob → List Order → List Order
update_incoming increment now [] rows = rows
update_incoming increment now (job ∷ batch) rows =
    update_incoming increment now batch (update_order_db increment now job.order rows)

-- The release of what is left of every closed order; `none` if a pair cannot be parsed.
unfoldable pub release_batch :
    (Decimal → Quantity → ℕ) → List PersistJob → List Balance → Option (List Balance)
release_batch mul [] rows = some rows
release_batch mul (job ∷ batch) rows = elim (release_leftover mul job.order rows) [
  | none ↦ none
  | some rows' ↦ release_batch mul batch rows'
]

module _ (mul : Decimal → Quantity → ℕ) (increment : ℤ → ℤ) (now : DateTime) where
  -- One transaction: `none` leaves the tables as they were.
  unfoldable pub process_persist_batch : List PersistJob → Tables → Option Tables
  process_persist_batch batch t = elim (all_deltas mul (batch_trades batch) []) [
    | none ↦ none
    | some deltas ↦ elim (release_batch mul batch (upsert_all (sort_deltas deltas) t.balances)) [
      | none ↦ none
      | some balances ↦ some (record {
        orders =
            update_incoming increment now batch
              (update_resting_of increment now batch (insert_orders now batch t.orders));
        trades = insert_trades (batch_trades batch) t.trades;
        balances = balances;
      })
    ]
  ]

  -- The trades and their balances, in a transaction of their own.
  unfoldable pub persist_trades : List Trade → Tables → Option Tables
  persist_trades [] t = some t
  persist_trades (trade ∷ trades) t = elim (all_deltas mul (trade ∷ trades) []) [
    | none ↦ none
    | some deltas ↦ some (record t {
      trades = insert_trades (trade ∷ trades) t.trades;
      balances = upsert_all (sort_deltas deltas) t.balances;
    })
  ]

  -- Whether the call succeeds, and the tables: here every step is on its own, and what was written
  -- before an error stays.
  unfoldable pub process_persist_job : PersistJob → Tables → Bool × Tables
  process_persist_job job t =
      let inserted = record t { orders = insert_order now job.order t.orders } in
      elim (persist_trades job.trades inserted) [
        | none ↦ (false, inserted)
        | some settled ↦
            let updated = record settled {
              orders =
                  update_order_db increment now job.order
                    (update_resting_orders_after_lua increment now job.lua_trades settled.orders);
            } in
            elim (release_leftover mul job.order updated.balances) [
              | none ↦ (false, updated)
              | some balances ↦ (true, record updated { balances = balances })
            ]
      ]

-- The jobs that wait in the channel: as many as there is room for, and those left.
unfoldable pub try_recv : ℕ → List PersistJob → List PersistJob × List PersistJob
try_recv zero jobs = ([], jobs)
try_recv (suc room) [] = ([], [])
try_recv (suc room) (job ∷ jobs) = let (batch, rest) = try_recv room jobs in (job ∷ batch, rest)

-- The batches of spawn_persist_worker, of up to 50 jobs, for the jobs that wait when it starts; one
-- unit of fuel to a batch.
unfoldable pub take_batches : ℕ → List PersistJob → List (List PersistJob)
take_batches zero jobs = []
take_batches (suc fuel) [] = []
take_batches (suc fuel) (first_job ∷ jobs) =
    let (more, rest) = try_recv 49 jobs in (first_job ∷ more) ∷ take_batches fuel rest

-- A batch that fails is logged, and lost.
abbrev pub or_same : Option Tables → Tables → Tables
or_same none t = t
or_same (some t') t = t'

unfoldable pub spawn_persist_worker :
    (List PersistJob → Tables → Option Tables) → List (List PersistJob) → Tables → Tables
spawn_persist_worker persist [] t = t
spawn_persist_worker persist (batch ∷ batches) t =
    spawn_persist_worker persist batches (or_same (persist batch t) t)
