-- ===== src/Gateway/Manage/Reset.antt =====
-- The rows of `balances` after reset_balances and reset_all of crates/gateway/src/routes.rs.
use Prim.Native.String.{◌++◌ as append}
use serverless_matching_engi.Prelude.{
  ℕ, zero, suc, ◌^◌, ◌<◌, String, Bool, ◌&&◌, Option, none, some, List, [], ◌∷◌, ◌≡◌, str_eq,
  if◌then◌else◌,
}
use serverless_matching_engi.Prelude.Int.{ℤ, pos, negsuc}
use serverless_matching_engi.Types.{Decimal}
use serverless_matching_engi.Cache.Crates.{Crates}
use serverless_matching_engi.Cache.Valkey.{Valkey}
use serverless_matching_engi.Cache.Seed.{BalanceRow}

-- What is available and locked of an asset of a user, if there is a row.
abbrev pub find_balance : String → String → List BalanceRow → Option (Decimal × Decimal)
find_balance user asset [] = none
find_balance user asset (r ∷ rows) =
    if str_eq r.user_id user && str_eq r.asset asset
    then some (r.available, r.locked)
    else find_balance user asset rows

-- The users with the numbers from `i` on.
abbrev pub user_names : (ℕ → String) → ℕ → ℕ → List String
user_names print i zero = []
user_names print i (suc count) = append "user-" (print i) ∷ user_names print (suc i) count

-- The numbers that a request can give, as far as they fit an i32, and how many users they mean:
-- the first of the two that is there, none for a negative one, and 100 if neither is there.
abbrev pub Asks : Option ℤ → Option ℤ → ℕ → Type 0
Asks (some (pos n)) num_users count = (n < 2 ^ 31) × (n ≡ count)
Asks (some (negsuc n)) num_users count = (n < 2 ^ 31) × (count ≡ 0)
Asks none (some (pos n)) count = (n < 2 ^ 31) × (n ≡ count)
Asks none (some (negsuc n)) count = (n < 2 ^ 31) × (count ≡ 0)
Asks none none count = count ≡ 100

abbrev names_up_to : (ℕ → String) → ℤ → List String
names_up_to print (pos n) = user_names print 1 n
names_up_to print (negsuc n) = []

-- 10 BTC and 1000000 USDT, in units of 10^-28.
abbrev pub full_btc : Decimal
full_btc = pos (10 ^ 29)

abbrev pub full_usdt : Decimal
full_usdt = pos (10 ^ 34)

-- What a user who is reset has of an asset, and otherwise the old balance.
abbrev pub after_reset : Bool → String → Option (Decimal × Decimal) → Option (Decimal × Decimal)
after_reset is_reset asset old =
    if is_reset && str_eq "USDT" asset
    then some (full_usdt, pos 0)
    else if is_reset && str_eq "BTC" asset
    then some (full_btc, pos 0)
    else old

-- The keys that are removed, 7 for each pair.
abbrev pub flushed : List String
flushed =
    "book:BTC-USDT:bids" ∷ "book:BTC-USDT:asks" ∷ "version:BTC-USDT" ∷ "cache:orderbook:BTC-USDT"
    ∷ "cache:trades:BTC-USDT" ∷ "cache:ticker:BTC-USDT" ∷ "queue:orders:BTC-USDT"
    ∷ "book:ETH-USDT:bids" ∷ "book:ETH-USDT:asks" ∷ "version:ETH-USDT" ∷ "cache:orderbook:ETH-USDT"
    ∷ "cache:trades:ETH-USDT" ∷ "cache:ticker:ETH-USDT" ∷ "queue:orders:ETH-USDT"
    ∷ "book:SOL-USDT:bids" ∷ "book:SOL-USDT:asks" ∷ "version:SOL-USDT" ∷ "cache:orderbook:SOL-USDT"
    ∷ "cache:trades:SOL-USDT" ∷ "cache:ticker:SOL-USDT" ∷ "queue:orders:SOL-USDT" ∷ []

-- One DEL for each key.
abbrev pub without_keys : (v : Valkey) → List String → v.Db → v.Db
without_keys v [] db = db
without_keys v (key ∷ keys) db = without_keys v keys (v.del key db)
