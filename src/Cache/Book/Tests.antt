-- ===== src/Cache/Book/Tests.antt =====
-- The laws of a hash in the database in memory, and the theorems on the book at inputs.
use serverless_matching_engi.Prelude.{
  String, true, none, some, List, [], ◌∷◌, ◌≡◌, ◌≢◌, refl, eq_refl, arith, ◌*◌,
}
use serverless_matching_engi.Prelude.Int.{ℤ, pos, pos_part}
use serverless_matching_engi.Text.{in_i64, print_i64, parse_i64}
use serverless_matching_engi.Types.{
  Order, Side, OrderType, TimeInForce, OrderStatus, SelfTradePreventionMode,
}
use serverless_matching_engi.Cache.Scale.{unit}
use serverless_matching_engi.Cache.Crates.{Crates}
use serverless_matching_engi.Cache.Memory.{Memory, memory, find_entry, put_all, without}
use serverless_matching_engi.Cache.Book.{version_key}
use serverless_matching_engi.Cache.Book.RoundTrip.{IsHashStore, find_field}
use serverless_matching_engi.Cache.Book.Cas.{CasResult, apply_book_mutations_cas}
use serverless_matching_engi.Cache.Book.Cas.Laws.{
  save_all, settle_book, apply_book_mutations_cas_lem,
}

find_entry-put_all :
    (key field text : String) (fields : List (String × String))
    (entries : List (String × String × String))
    → find_field field fields ≡ some text
    → find_entry key field (put_all key fields entries) ≡ some text
find_entry-put_all key field text [] entries h = absurd (ground arith)
find_entry-put_all key field text ((name, value) ∷ rest) entries h =
    ground (arith, find_entry-put_all key field text rest entries, eq_refl key)

find_entry-without :
    (key field : String) (entries : List (String × String × String))
    → find_entry key field (without key entries) ≡ none
find_entry-without key field [] = refl
find_entry-without key field ((k, g, text) ∷ rest) =
    ground (arith, find_entry-without key field rest)

memory-IsHashStore : IsHashStore memory
memory-IsHashStore = record {
  hget-hset = λ key field text fields db. find_entry-put_all key field text fields db.entries;
  hget-del = λ key field db. find_entry-without key field db.entries;
}

abbrev crates : Crates
crates = record {
  uuid_to_string = λ id. print_i64 (pos id);
  parse_uuid = λ s. elim (parse_i64 s) [ none ↦ none | some i ↦ some (pos_part i) ];
  timestamp_millis = λ t. pos t;
  timestamp_opt = λ s n. none;
  now = 0;
}

abbrev seller : Order
seller = record {
  id = 11;
  user_id = "user-2";
  pair_id = "BTC-USDT";
  side = Side.sell;
  order_type = OrderType.limit;
  tif = TimeInForce.gtc;
  price = some (pos (100 * unit));
  quantity = 3;
  remaining = 3;
  status = OrderStatus.new;
  stp_mode = SelfTradePreventionMode.none;
  version = pos 1;
  sequence = pos 0;
  created_at = 7;
  updated_at = 7;
  client_order_id = none;
  received_at = none;
  matched_at = none;
  persisted_at = none;
}

-- A book without orders, its version counter at 4.
abbrev empty : Memory
empty = record { entries = []; members = []; texts = ("version:BTC-USDT", "4") ∷ [] }

apply_book_mutations_cas_lem_example :
    let out = apply_book_mutations_cas memory crates "BTC-USDT" (pos 4) (seller ∷ []) none empty in
    let after = save_all memory crates (seller ∷ []) none empty in
    (memory.get (version_key "BTC-USDT") empty ≡ none → out ≡ (CasResult.conflict, after))
    × ((m : ℤ)
        → in_i64 m ≡ true
        → memory.get (version_key "BTC-USDT") empty ≡ some (print_i64 m)
        → (m ≡ pos 4
            → out ≡ (
              CasResult.ok,
              memory.incr
                  (version_key "BTC-USDT")
                  (settle_book memory crates "BTC-USDT" (seller ∷ []) none after),
            ))
          × (m ≢ pos 4 → out ≡ (CasResult.conflict, after)))
apply_book_mutations_cas_lem_example =
    apply_book_mutations_cas_lem memory (λ key k fields db. refl) crates "BTC-USDT" (pos 4)
      (seller ∷ []) none empty refl
