-- ===== src/Cache/Snapshot.antt =====
-- The views of the order book in crates/shared/src/cache.rs: the script ORDERBOOK_SNAPSHOT_LUA with
-- orderbook_snapshot_lua, which reads its reply, and load_order_book_snapshot. How rust_decimal
-- prints a number is a parameter. Numbers of the script are exact (doubles below 2^53).
pub mod Levels
pub mod Reply
mod Tests
use Prim.Native.String.{◌++◌ as append}
use serverless_matching_engi.Prelude.{
  ℕ, zero, suc, ◌+◌, ◌/◌, String, Option, none, some, List, [], ◌∷◌, ◌++◌, ltb, str_eq, length,
  if◌then◌else◌,
}
use serverless_matching_engi.Prelude.Int.{ℤ, pos, negsuc}
use serverless_matching_engi.Text.{print_i64, parse_i64}
use serverless_matching_engi.Types.{Order, Side, Decimal}
use serverless_matching_engi.Cache.Scale.{i64_to_decimal}
use serverless_matching_engi.Cache.Crates.{Crates}
use serverless_matching_engi.Cache.Valkey.{Valkey, Bound}
use serverless_matching_engi.Cache.Script.{tostring, number_or_zero}
use serverless_matching_engi.Cache.Match.{parse_or_zero, count_or_zero}
use serverless_matching_engi.Cache.Book.{book_key, version_key, limit_score, fetch_orders_by_ids}
use serverless_matching_engi.Prelude.Int.{pos_part}

-- A price, as the text in the hash, and the quantity at it.
abbrev pub Level : Type 0
Level = String × ℕ

-- The tables `levels` and `level_order`: a new price goes to the end.
unfoldable pub add_level : String → ℕ → List Level → List Level
add_level p r [] = (p, r) ∷ []
add_level p r ((q, total) ∷ levels) =
    if str_eq q p then (q, total + r) ∷ levels else (q, total) ∷ add_level p r levels

-- An order counts if both fields are there and something is left.
abbrev pub level_if : Option String → Option String → Option Level
level_if none ri = none
level_if (some pi) none = none
level_if (some pi) (some ri) =
    let r = pos_part (number_or_zero (some ri)) in if ltb 0 r then some (pi, r) else none

abbrev pub add_some : Option Level → List Level → List Level
add_some none levels = levels
add_some (some (p, r)) levels = add_level p r levels

abbrev pub abs : ℤ → ℤ
abs (pos n) = pos n
abs (negsuc n) = pos (suc n)

-- Two items for each level, as long as there are two.
unfoldable pub take_levels :
    (ℤ → ℤ) → (Decimal → String) → ℕ → List String → List (String × String) × List String
take_levels sign show zero items = ([], items)
take_levels sign show (suc n) (p ∷ q ∷ items) =
    let (levels, rest) = take_levels sign show n items in
    (
      (show (i64_to_decimal (sign (parse_or_zero p))), show (i64_to_decimal (parse_or_zero q)))
          ∷ levels,
      rest,
    )
take_levels sign show (suc n) _ = ([], [])

-- The first item, and those behind it.
abbrev pub next_count : List String → ℕ × List String
next_count [] = (0, [])
next_count (item ∷ items) = (count_or_zero item, items)

-- The bids, which are kept by negated prices, and the asks of a reply.
unfoldable pub parse_snapshot :
    (Decimal → String) → List String → List (String × String) × List (String × String)
parse_snapshot show reply =
    let (bid_count, items) = next_count reply in
    let (bids, rest) = take_levels abs show (bid_count / 2) items in
    let (ask_count, items') = next_count rest in
    let (asks, rest') = take_levels (λ i. i) show (ask_count / 2) items' in (bids, asks)

module _ (v : Valkey) where
  open v use {Db, get, hget, zrangebyscore}

  abbrev pub level_of : String → Db → Option Level
  level_of id db =
      level_if (hget (append "order:" id) "price_i" db) (hget (append "order:" id) "remaining_i" db)

  unfoldable pub collect : List String → Db → List Level → List Level
  collect [] db levels = levels
  collect (id ∷ ids) db levels = collect ids db (add_some (level_of id db) levels)

  unfoldable pub top_ids : String → ℕ → Db → List String
  top_ids key limit db = zrangebyscore key Bound.minus_inf Bound.plus_inf (some (0, limit)) db

  unfoldable pub aggregate_side : String → ℕ → Db → List Level
  aggregate_side key limit db = collect (top_ids key limit db) db []

  abbrev pub number_of : Option String → ℤ
  number_of none = pos 0
  number_of (some text) = parse_or_zero text

  -- The readable orders of a side up to a price, with the version of the book.
  unfoldable pub load_order_book_snapshot :
      Crates → String → Side → Option Decimal → Db → List Order × ℤ
  load_order_book_snapshot lib pair_id side limit_price db = (
    fetch_orders_by_ids v lib
        (zrangebyscore (book_key pair_id side) Bound.minus_inf (limit_score v lib side limit_price)
          none db)
        db,
    number_of (get (version_key pair_id) db),
  )

module _ (exponent_form : ℕ → String) where
  unfoldable pub level_texts : List Level → List String
  level_texts [] = []
  level_texts ((p, total) ∷ levels) = p ∷ tostring exponent_form (pos total) ∷ level_texts levels

  -- A side of the reply: the number of its items, and the items.
  unfoldable pub side_reply : List Level → List String
  side_reply levels = print_i64 (pos (length (level_texts levels))) ∷ level_texts levels

  unfoldable pub snapshot_script : (v : Valkey) → String → ℕ → v.Db → List String
  snapshot_script v pair_id limit db =
      side_reply (aggregate_side v (append "book:" (append pair_id ":bids")) limit db)
      ++ side_reply (aggregate_side v (append "book:" (append pair_id ":asks")) limit db)

  unfoldable pub orderbook_snapshot_lua :
      (v : Valkey)
      → (Decimal → String)
      → String
      → ℕ
      → v.Db
      → List (String × String) × List (String × String)
  orderbook_snapshot_lua v show pair_id limit db =
      parse_snapshot show (snapshot_script v pair_id limit db)
