-- ===== src/Gateway/Manage.antt =====
-- The commands of internal_manage of crates/gateway/src/routes.rs that change the data: reset_all,
-- reset_balances, sweep_stale_orders and truncate_orders. Tables are lists of rows, and a statement
-- that fails is not modelled. The commands that run migrations or the caller's SQL are left out.
pub mod Sweep
pub mod Reset
mod Tests
use Prim.Native.String.{◌++◌ as append}
use serverless_matching_engi.Prelude.{
  ℕ, zero, suc, ◌+◌, ◌-◌, ◌*◌, ◌%◌, ◌^◌, String, Bool, ◌&&◌, Option, none, some, List, [], ◌∷◌,
  str_eq, if◌then◌else◌, leb, ltb,
}
use serverless_matching_engi.Prelude.Int.{ℤ, pos, negsuc}
use serverless_matching_engi.Types.{Decimal, Order, Trade}
use serverless_matching_engi.Cache.Crates.{Crates}
use serverless_matching_engi.Cache.Valkey.{Valkey}
use serverless_matching_engi.Cache.Seed.{BalanceRow, init_balances_from_pg}
use serverless_matching_engi.Ws.Sets.{Family, srem, smembers}

abbrev pub pair_ids : List String
pair_ids = "BTC-USDT" ∷ "ETH-USDT" ∷ "SOL-USDT" ∷ []

-- Both sides of the book of every pair.
abbrev pub books_of : List String → List String
books_of [] = []
books_of (pair ∷ rest) =
    append "book:" (append pair ":bids") ∷ append "book:" (append pair ":asks") ∷ books_of rest

abbrev pub book_keys : List String
book_keys = books_of pair_ids

-- EXISTS says whether an order has its hash; the sweep leaves the hashes alone. The family holds the
-- members of the books, and the number counts what was removed.
module _ (exists_key : String → Bool) where
  abbrev pub is_live : String → Bool
  is_live order_id = exists_key (append "order:" order_id)

  unfoldable pub sweep_members : String → List String → Family × ℕ → Family × ℕ
  sweep_members book [] state = state
  sweep_members book (order_id ∷ members) (family, removed) =
      if is_live order_id
      then sweep_members book members (family, removed)
      else sweep_members book members (srem book order_id family, removed + 1)

  unfoldable pub sweep_books : List String → Family × ℕ → Family × ℕ
  sweep_books [] state = state
  sweep_books (book ∷ books) (family, removed) =
      sweep_books books (sweep_members book (smembers book family) (family, removed))

  unfoldable pub sweep_stale_orders : Family → Family × ℕ
  sweep_stale_orders family = sweep_books book_keys (family, 0)

-- `as i32` of an i64.
abbrev pub wrap_i32 : ℕ → ℤ
wrap_i32 n = if ltb n (2 ^ 31) then pos n else negsuc (2 ^ 32 - 1 - n)

unfoldable pub as_i32 : ℤ → ℤ
as_i32 (pos n) = wrap_i32 (n % 2 ^ 32)
as_i32 (negsuc n) = wrap_i32 (2 ^ 32 - 1 - n % 2 ^ 32)

unfoldable pub user_count : Option ℤ → Option ℤ → ℤ
user_count (some n) num_users = as_i32 n
user_count none (some n) = as_i32 n
user_count none none = pos 100

-- A whole number as a Decimal.
abbrev pub whole : ℕ → Decimal
whole n = pos (n * 10 ^ 28)

-- INSERT .. ON CONFLICT (user_id, asset) DO UPDATE SET available, locked = 0.
unfoldable pub put_balance : String → String → ℕ → List BalanceRow → List BalanceRow
put_balance user asset amount [] =
    record { user_id = user; asset = asset; available = whole amount; locked = pos 0 } ∷ []
put_balance user asset amount (r ∷ rows) =
    if str_eq r.user_id user && str_eq r.asset asset
    then record r { available = whole amount; locked = pos 0 } ∷ rows
    else r ∷ put_balance user asset amount rows

unfoldable pub reset_user : String → List BalanceRow → List BalanceRow
reset_user user rows = put_balance user "USDT" 1000000 (put_balance user "BTC" 10 rows)

-- The users with the numbers from `i` on, whose texts come from `print`.
unfoldable pub reset_users : (ℕ → String) → ℕ → ℕ → List BalanceRow → List BalanceRow
reset_users print i zero rows = rows
reset_users print i (suc count) rows =
    reset_users print (suc i) count (reset_user (append "user-" (print i)) rows)

-- `for i in 1..=n`.
unfoldable pub reset_rows : (ℕ → String) → ℤ → List BalanceRow → List BalanceRow
reset_rows print (pos n) rows = reset_users print 1 n rows
reset_rows print (negsuc n) rows = rows

abbrev pub view_keys : String → List String
view_keys pair =
    append "book:" (append pair ":bids")
    ∷ append "book:" (append pair ":asks")
    ∷ append "version:" pair
    ∷ append "cache:orderbook:" pair
    ∷ append "cache:trades:" pair
    ∷ append "cache:ticker:" pair
    ∷ append "queue:orders:" pair
    ∷ []

-- The tables; their balances are rows with Decimals.
pub record ManagedTables : Type 0 where
  pub orders : List Order
  pub trades : List Trade
  pub balances : List BalanceRow

-- TRUNCATE orders CASCADE: the trades refer to the orders.
abbrev pub truncate_tables : ManagedTables → ManagedTables
truncate_tables t = record t { orders = []; trades = [] }

module _ (v : Valkey) (lib : Crates) (print : ℕ → String) where
  open v use {Db, del, incr}

  abbrev pub del_all : List String → Db → Db
  del_all [] db = db
  del_all (key ∷ keys) db = del_all keys (del key db)

  unfoldable pub flush_pairs : List String → Db → Db
  flush_pairs [] db = db
  flush_pairs (pair ∷ rest) db = flush_pairs rest (del_all (view_keys pair) db)

  unfoldable pub reset_balances : Option ℤ → Option ℤ → ManagedTables × Db → ManagedTables × Db
  reset_balances users num_users (t, db) =
      let rows = reset_rows print (user_count users num_users) t.balances in
      (record t { balances = rows }, init_balances_from_pg v lib rows db)

  unfoldable pub reset_all : Option ℤ → Option ℤ → ManagedTables × Db → ManagedTables × Db
  reset_all users num_users (t, db) =
      let (t', db') = reset_balances users num_users (truncate_tables t, db) in
      (t', flush_pairs pair_ids db')

  unfoldable pub truncate_orders : ManagedTables × Db → ManagedTables × Db
  truncate_orders (t, db) =
      (truncate_tables t, incr "state:reset_version" (flush_pairs pair_ids db))
