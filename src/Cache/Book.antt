-- ===== src/Cache/Book.antt =====
-- The access to the book and the balances in crates/shared/src/cache.rs. A pipeline is its commands
-- one after the other.
pub mod Cas
pub mod RoundTrip
mod Tests
use Prim.Native.String.{◌++◌ as append}
use serverless_matching_engi.Prelude.{
  ℕ, String, Bool, true, false, Option, none, some, List, [], ◌∷◌, map, if◌then◌else◌,
}
use serverless_matching_engi.Prelude.Int.{ℤ, pos, neg}
use serverless_matching_engi.Text.{parse_i64}
use serverless_matching_engi.Types.{Order, Side, Uuid, Decimal}
use serverless_matching_engi.Cache.Scale.{decimal_to_i64}
use serverless_matching_engi.Cache.Crates.{Crates}
use serverless_matching_engi.Cache.Fields.{price_i, order_fields, parse_order_from_hmget}
use serverless_matching_engi.Cache.Valkey.{Valkey, Bound}
use serverless_matching_engi.Cache.Match.{book_score}

unfoldable pub book_key : String → Side → String
book_key pair_id Side.buy = append "book:" (append pair_id ":bids")
book_key pair_id Side.sell = append "book:" (append pair_id ":asks")

unfoldable pub order_key : Crates → Uuid → String
order_key lib id = append "order:" (lib.uuid_to_string id)

abbrev pub version_key : String → String
version_key pair_id = append "version:" pair_id

-- ORDER_FIELDS.
abbrev pub field_names : List String
field_names =
    "id" ∷ "pair_id" ∷ "side" ∷ "order_type" ∷ "tif" ∷ "price_i" ∷ "qty_i" ∷ "remaining_i"
    ∷ "status" ∷ "stp" ∷ "user_id" ∷ "ts_ms" ∷ "version" ∷ []

abbrev pub zip : List String → List String → List (String × String)
zip [] ys = []
zip (x ∷ xs) [] = []
zip (x ∷ xs) (y ∷ ys) = (x, y) ∷ zip xs ys

-- The fields and values of HSET for an order.
abbrev pub hash_of : Crates → Order → List (String × String)
hash_of lib o = zip field_names (order_fields lib o)

-- Orders whose hash cannot be read are left out.
abbrev pub push_some {ℓ} : {A : Type ℓ} → Option A → List A → List A
push_some none xs = xs
push_some (some x) xs = x ∷ xs

abbrev pub all_none : List (Option String) → Bool
all_none [] = true
all_none (none ∷ rest) = all_none rest
all_none (some x ∷ rest) = false

module _ (v : Valkey) (lib : Crates) where
  open v use {Db, get, hget, zrangebyscore, hincrby, hset, zadd, zrem, del, incr}

  unfoldable pub hmget_order : String → Db → List (Option String)
  hmget_order key db = map (λ field. hget key field db) field_names

  unfoldable pub fetch_orders_by_ids : List String → Db → List Order
  fetch_orders_by_ids [] db = []
  fetch_orders_by_ids (id ∷ ids) db =
      push_some (parse_order_from_hmget lib (hmget_order (append "order:" id) db))
        (fetch_orders_by_ids ids db)

  unfoldable pub load_order_book : String → Side → Db → List Order
  load_order_book pair_id side db =
      fetch_orders_by_ids
        (zrangebyscore (book_key pair_id side) Bound.minus_inf Bound.plus_inf none db) db

  -- The highest score that a limit price lets through.
  abbrev pub limit_score : Side → Option Decimal → Bound
  limit_score side none = Bound.plus_inf
  limit_score Side.sell (some price) = Bound.at (decimal_to_i64 price)
  limit_score Side.buy (some price) = Bound.at (neg (decimal_to_i64 price))

  unfoldable pub load_order_book_filtered : String → Side → Option Decimal → Db → List Order
  load_order_book_filtered pair_id side limit_price db =
      fetch_orders_by_ids
        (zrangebyscore (book_key pair_id side) Bound.minus_inf (limit_score side limit_price) none
          db)
        db

  unfoldable pub load_order_book_batched : String → Side → ℕ → ℕ → Db → List Order
  load_order_book_batched pair_id side offset count db =
      fetch_orders_by_ids
        (zrangebyscore (book_key pair_id side) Bound.minus_inf Bound.plus_inf (some (offset, count))
          db)
        db

  unfoldable pub save_order_to_book : Order → Db → Db
  save_order_to_book o db = hset (order_key lib o.id) (hash_of lib o) (
      zadd (book_key o.pair_id o.side) (book_score o.side (price_i o.price))
        (lib.uuid_to_string o.id) db)

  unfoldable pub remove_order_from_book : Order → Db → Db
  remove_order_from_book o db =
      del (order_key lib o.id) (zrem (book_key o.pair_id o.side) (lib.uuid_to_string o.id) db)

  unfoldable pub get_order : Uuid → Db → Option Order
  get_order id db =
      if all_none (hmget_order (order_key lib id) db)
      then none
      else parse_order_from_hmget lib (hmget_order (order_key lib id) db)

  -- The new value is what GET finds afterwards.
  unfoldable pub increment_version : String → Db → Db
  increment_version pair_id db = incr (version_key pair_id) db

  -- A missing counter counts as 0; a text that is no number is an error.
  unfoldable pub get_version : String → Db → Option ℤ
  get_version pair_id db = elim (get (version_key pair_id) db) [
    | none ↦ some (pos 0)
    | some text ↦ parse_i64 text
  ]

  unfoldable pub unlock_balance_redis : String → String → ℤ → Db → Db
  unlock_balance_redis user_id asset amount_scaled db =
      let key = append "balance:" (append user_id (append ":" asset)) in
      hincrby key "locked" (neg amount_scaled) (hincrby key "available" amount_scaled db)
