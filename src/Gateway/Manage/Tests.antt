-- ===== src/Gateway/Manage/Tests.antt =====
-- The commands of internal_manage at inputs.
use serverless_matching_engi.Prelude.{
  ℕ, ◌==◌, if◌then◌else◌, String, none, some, [], ◌∷◌, ◌≡◌, refl, str_eq, not,
}
use serverless_matching_engi.Prelude.Int.{pos, negsuc}
use serverless_matching_engi.Cache.Crates.{Crates}
use serverless_matching_engi.Cache.Memory.{Memory}
use serverless_matching_engi.Ws.Sets.{Family, srem, smembers}
use serverless_matching_engi.Gateway.Manage.{
  ManagedTables, as_i32, sweep_stale_orders, sweep_books, sweep_members,
}

abbrev books : Family
books = ("book:BTC-USDT:bids", "1") ∷ ("book:BTC-USDT:bids", "2") ∷ ("cache:x", "2") ∷ []

sweeps :
    sweep_stale_orders (λ key. not (str_eq key "order:2")) books
    ≡ (("book:BTC-USDT:bids", "1") ∷ ("cache:x", "2") ∷ [], 1)
unfolding sweep_stale_orders sweep_books sweep_members srem smembers
sweeps = refl

-- A number past the range of an i32.
wraps : as_i32 (pos 4294967290) ≡ negsuc 5
unfolding as_i32
wraps = refl

abbrev crates : Crates
crates = record {
  uuid_to_string = λ id. "1";
  parse_uuid = λ s. some 1;
  timestamp_millis = λ t. pos t;
  timestamp_opt = λ s n. none;
  now = 0;
}

abbrev digit : ℕ → String
digit n = if n == 1 then "1" else "2"

abbrev empty : Memory
empty = record { entries = []; members = []; texts = [] }

abbrev tables : ManagedTables
tables = record {
  orders = [];
  trades = [];
  balances =
      record { user_id = "user-1"; asset = "BTC"; available = pos 3; locked = pos 2 }
      ∷ record { user_id = "user-9"; asset = "BTC"; available = pos 7; locked = pos 0 }
      ∷ [];
}
