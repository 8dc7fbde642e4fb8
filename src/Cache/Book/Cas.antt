-- ===== src/Cache/Book/Cas.antt =====
-- apply_book_mutations_cas of crates/shared/src/cache.rs and its script CAS_SCRIPT.
pub mod Laws
use serverless_matching_engi.Prelude.{
  String, Bool, true, false, Option, none, some, List, [], ◌∷◌, ◌++◌, map, str_eq, if◌then◌else◌,
}
use serverless_matching_engi.Prelude.Int.{ℤ}
use serverless_matching_engi.Text.{print_i64}
use serverless_matching_engi.Types.{Order, Side, OrderStatus}
use serverless_matching_engi.Cache.Crates.{Crates}
use serverless_matching_engi.Cache.Fields.{price_i}
use serverless_matching_engi.Cache.Valkey.{Valkey}
use serverless_matching_engi.Cache.Match.{book_score}
use serverless_matching_engi.Cache.Book.{book_key, order_key, version_key, hash_of}

-- The four operations, by side.
pub data Op : Type 0 where
  remove upsert : Side → Op

pub record Mutation : Type 0 where
  pub op : Op
  pub oid : String
  pub order_key : String
  pub score : ℤ

pub data CasResult : Type 0 where
  ok conflict : CasResult

-- Filled and cancelled orders leave the book.
abbrev pub is_gone : OrderStatus → Bool
is_gone OrderStatus.filled = true
is_gone OrderStatus.cancelled = true
is_gone _ = false

module _ (v : Valkey) (lib : Crates) where
  open v use {Db, get, hset, zadd, zrem, del, incr}

  abbrev pub mutation : Op → Order → Mutation
  mutation op o = record {
    op = op;
    oid = lib.uuid_to_string o.id;
    order_key = order_key lib o.id;
    score = book_score o.side (price_i o.price);
  }

  abbrev pub update_op : Order → Op
  update_op o = if is_gone o.status then Op.remove o.side else Op.upsert o.side

  unfoldable pub mutations : List Order → Option Order → List Mutation
  mutations [] none = []
  mutations [] (some incoming) = mutation (Op.upsert incoming.side) incoming ∷ []
  mutations (o ∷ os) incoming = mutation (update_op o) o ∷ mutations os incoming

  -- The orders whose hashes are written before the script.
  unfoldable pub upsert_orders : List Order → Option Order → List Order
  upsert_orders [] none = []
  upsert_orders [] (some incoming) = incoming ∷ []
  upsert_orders (o ∷ os) incoming =
      let rest = upsert_orders os incoming in if is_gone o.status then rest else o ∷ rest

  unfoldable pub write_hashes : List Order → Db → Db
  write_hashes [] db = db
  write_hashes (o ∷ os) db = write_hashes os (hset (order_key lib o.id) (hash_of lib o) db)

  unfoldable pub mutate : String → Mutation → Db → Db
  mutate pair_id m db = elim m.op [
    | Op.remove side ↦ del m.order_key (zrem (book_key pair_id side) m.oid db)
    | Op.upsert side ↦ zadd (book_key pair_id side) m.score m.oid db
  ]

  unfoldable pub mutate_all : String → List Mutation → Db → Db
  mutate_all pair_id [] db = db
  mutate_all pair_id (m ∷ ms) db = mutate_all pair_id ms (mutate pair_id m db)

  -- Lua's `tostring` of the reply to GET, which is `false` for a missing key.
  abbrev pub current : String → Db → String
  current pair_id db = elim (get (version_key pair_id) db) [ none ↦ "false" | some text ↦ text ]

  -- CAS_SCRIPT.
  unfoldable pub cas_script : String → ℤ → List Mutation → Db → CasResult × Db
  cas_script pair_id expected_version ms db =
      if str_eq (current pair_id db) (print_i64 expected_version)
      then (CasResult.ok, incr (version_key pair_id) (mutate_all pair_id ms db))
      else (CasResult.conflict, db)

  unfoldable pub apply_book_mutations_cas :
      String → ℤ → List Order → Option Order → Db → CasResult × Db
  apply_book_mutations_cas pair_id expected_version book_updates incoming_if_resting db =
      cas_script pair_id expected_version (mutations book_updates incoming_if_resting)
        (write_hashes (upsert_orders book_updates incoming_if_resting) db)
