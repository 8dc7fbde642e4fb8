-- ===== src/Cache/Book/RoundTrip.antt =====
-- Saving, reading and removing an order, against the documented behaviour of a hash.
use serverless_matching_engi.Prelude.{
  ℕ, ◌*◌, ◌/◌, ◌%◌, ◌<◌, String, true, false, Option, none, some, List, [], ◌∷◌, map, ◌≡◌, refl,
  str_eq, if◌then◌else◌,
}
use serverless_matching_engi.Prelude.Int.{pos}
use serverless_matching_engi.Text.{in_i64, i64_bound, print_i64}
use serverless_matching_engi.Types.{Order, DateTime}
use serverless_matching_engi.Cache.Crates.{Crates}
use serverless_matching_engi.Cache.Fields.{
  order_fields, side_char, order_type_char, tif_char, status_char, stp_char, price_i,
}
use serverless_matching_engi.Cache.Fields.RoundTrip.{as_stored, parse_order_from_hmget-order_fields}
use serverless_matching_engi.Cache.Scale.{decimal_to_i64}
use serverless_matching_engi.Cache.Match.{book_score}
use serverless_matching_engi.Cache.Valkey.{Valkey}
use serverless_matching_engi.Cache.Book.{
  book_key, order_key, hash_of, all_none, hmget_order, save_order_to_book, remove_order_from_book,
  get_order,
}

abbrev pub find_field : String → List (String × String) → Option String
find_field field [] = none
find_field field ((name, text) ∷ rest) =
    if str_eq name field then some text else find_field field rest

-- HGET finds what HSET wrote, the other fields being as they were, and nothing after DEL.
pub record IsHashStore (v : Valkey) : Type 0 where
  pub hget-hset :
      (key field text : String) (fields : List (String × String)) (db : v.Db)
      → find_field field fields ≡ some text
      → v.hget key field (v.hset key fields db) ≡ some text
  pub hget-del : (key field : String) (db : v.Db) → v.hget key field (v.del key db) ≡ none

module _ (v : Valkey) (laws : IsHashStore v) (lib : Crates) where
  hmget_order-hset :
      (key : String) (o : Order) (db : v.Db)
      → hmget_order v lib key (v.hset key (hash_of lib o) db)
        ≡ map (λ x. some x) (order_fields lib o)
  unfolding hmget_order order_fields
  hmget_order-hset key o db = rw (
    written "id" (lib.uuid_to_string o.id) refl,
    written "pair_id" (o.pair_id) refl,
    written "side" (side_char o.side) refl,
    written "order_type" (order_type_char o.order_type) refl,
    written "tif" (tif_char o.tif) refl,
    written "price_i" (print_i64 (price_i o.price)) refl,
    written "qty_i" (print_i64 (decimal_to_i64 (pos o.quantity))) refl,
    written "remaining_i" (print_i64 (decimal_to_i64 (pos o.remaining))) refl,
    written "status" (status_char o.status) refl,
    written "stp" (stp_char o.stp_mode) refl,
    written "user_id" (o.user_id) refl,
    written "ts_ms" (print_i64 (lib.timestamp_millis o.created_at)) refl,
    written "version" (print_i64 o.version) refl,
  )
    where
      written :
          (field text : String)
          → find_field field (hash_of lib o) ≡ some text
          → v.hget key field (v.hset key (hash_of lib o) db) ≡ some text
      written field text e = laws.hget-hset key field text (hash_of lib o) db e

  hmget_order-del :
      (key : String) (db : v.Db) → all_none (hmget_order v lib key (v.del key db)) ≡ true
  unfolding hmget_order
  hmget_order-del key db = rw (
    laws.hget-del key "id" db,
    laws.hget-del key "pair_id" db,
    laws.hget-del key "side" db,
    laws.hget-del key "order_type" db,
    laws.hget-del key "tif" db,
    laws.hget-del key "price_i" db,
    laws.hget-del key "qty_i" db,
    laws.hget-del key "remaining_i" db,
    laws.hget-del key "status" db,
    laws.hget-del key "stp" db,
    laws.hget-del key "user_id" db,
    laws.hget-del key "ts_ms" db,
    laws.hget-del key "version" db,
  )

  -- An order that was saved is read back as its hash holds it, and one that was removed is not
  -- found, in a store that keeps hashes.
  pub get_order-save_order_to_book :
      (o : Order) (ms : ℕ) (stamp : DateTime) (db : v.Db)
      → lib.parse_uuid (lib.uuid_to_string o.id) ≡ some o.id
      → str_eq (lib.uuid_to_string o.id) "" ≡ false
      → in_i64 o.version ≡ true
      → lib.timestamp_millis o.created_at ≡ pos ms
      → ms < i64_bound
      → lib.timestamp_opt (pos (ms / 1000)) (ms % 1000 * 1000000) ≡ some stamp
      → (get_order v lib o.id (save_order_to_book v lib o db) ≡ some (as_stored stamp o))
        × (get_order v lib o.id (remove_order_from_book v lib o db) ≡ none)
  unfolding get_order save_order_to_book remove_order_from_book order_fields
  get_order-save_order_to_book o ms stamp db a b c d e h = (
    rw (
      hmget_order-hset (order_key lib o.id) o (
          v.zadd (book_key o.pair_id o.side) (book_score o.side (price_i o.price))
            (lib.uuid_to_string o.id) db),
      parse_order_from_hmget-order_fields lib o ms stamp a b c d e h,
    ),
    rw (
        hmget_order-del (order_key lib o.id)
          (v.zrem (book_key o.pair_id o.side) (lib.uuid_to_string o.id) db)),
  )
