-- ===== src/Cache/Book/Cas/Laws.antt =====
-- When the compare-and-swap succeeds, and what a conflict leaves behind.
use serverless_matching_engi.Prelude.{
  String, true, false, Option, none, some, List, [], ◌∷◌, ◌≡◌, ◌≢◌, refl, sym, ap, ◌∙◌, str_eq,
  eq_iff, eq_refl, arith, Bool-cases, inl, inr, if◌then◌else◌,
}
use serverless_matching_engi.Prelude.Int.{ℤ}
use serverless_matching_engi.Text.{in_i64, print_i64, parse_i64, parse_magnitude, parse_digits}
use serverless_matching_engi.Text.Laws.{parse_i64-print_i64}
use serverless_matching_engi.Types.{Order, OrderStatus}
use serverless_matching_engi.Cache.Crates.{Crates}
use serverless_matching_engi.Cache.Valkey.{Valkey}
use serverless_matching_engi.Cache.Fields.{price_i}
use serverless_matching_engi.Cache.Match.{book_score}
use serverless_matching_engi.Cache.Book.{book_key, order_key, version_key, hash_of}
use serverless_matching_engi.Cache.Book.Cas.{
  CasResult, Op, is_gone, mutation, mutate, update_op, mutations, upsert_orders, write_hashes,
  mutate_all, current, cas_script, apply_book_mutations_cas,
}

-- HSET changes no text that GET finds.
abbrev pub KeepsText : Valkey → Type 0
KeepsText v =
    (key k : String) (fields : List (String × String)) (db : v.Db)
    → v.get key (v.hset k fields db) ≡ v.get key db

some_ne_none : {A : Type 0} (a : A) → some a ≢ none
some_ne_none a = λ e. ground arith

print_i64-injective :
    (m n : ℤ) → in_i64 m ≡ true → in_i64 n ≡ true → print_i64 m ≡ print_i64 n → m ≡ n
print_i64-injective m n hm hn e =
    let parsed : some m ≡ some n =
      sym (parse_i64-print_i64 m hm) ∙ ap parse_i64 e ∙ parse_i64-print_i64 n hn in
    ground arith

parse_i64-false : parse_i64 "false" ≡ none
unfolding parse_i64 parse_magnitude parse_digits
parse_i64-false = refl

false_ne_number : (n : ℤ) → in_i64 n ≡ true → str_eq "false" (print_i64 n) ≡ false
false_ne_number n h = elim (Bool-cases (str_eq "false" (print_i64 n))) [
  | inl e ↦
      let same : "false" ≡ print_i64 n = (eq_iff "false" (print_i64 n)).0 e in
      absurd
        (some_ne_none n (sym (parse_i64-print_i64 n h) ∙ sym (ap parse_i64 same) ∙ parse_i64-false))
  | inr e ↦ e
]

module _ (v : Valkey) (lib : Crates) where
  -- The order rests on its side of the book.
  abbrev pub rest_in_book : String → Order → v.Db → v.Db
  rest_in_book pair_id o =
      v.zadd (book_key pair_id o.side) (book_score o.side (price_i o.price))
        (lib.uuid_to_string o.id)

  -- What one order of a status comes to: a filled or cancelled one leaves its side of the book and
  -- loses its hash, any other rests in the book.
  abbrev pub settle : String → Order → OrderStatus → v.Db → v.Db
  settle pair_id o OrderStatus.filled db =
      v.del (order_key lib o.id) (v.zrem (book_key pair_id o.side) (lib.uuid_to_string o.id) db)
  settle pair_id o OrderStatus.cancelled db =
      v.del (order_key lib o.id) (v.zrem (book_key pair_id o.side) (lib.uuid_to_string o.id) db)
  settle pair_id o OrderStatus.new db = rest_in_book pair_id o db
  settle pair_id o OrderStatus.partially_filled db = rest_in_book pair_id o db
  settle pair_id o OrderStatus.rejected db = rest_in_book pair_id o db

  -- Every updated order in turn, and then the incoming one if it rests.
  abbrev pub settle_book : String → List Order → Option Order → v.Db → v.Db
  settle_book pair_id [] none db = db
  settle_book pair_id [] (some incoming) db = rest_in_book pair_id incoming db
  settle_book pair_id (o ∷ os) incoming db =
      settle_book pair_id os incoming (settle pair_id o o.status db)

  abbrev pub save_hash : Order → v.Db → v.Db
  save_hash o = v.hset (order_key lib o.id) (hash_of lib o)

  abbrev pub save_unless_gone : Order → OrderStatus → v.Db → v.Db
  save_unless_gone o OrderStatus.filled db = db
  save_unless_gone o OrderStatus.cancelled db = db
  save_unless_gone o OrderStatus.new db = save_hash o db
  save_unless_gone o OrderStatus.partially_filled db = save_hash o db
  save_unless_gone o OrderStatus.rejected db = save_hash o db

  -- The hashes of the orders that are neither filled nor cancelled, and of the incoming one.
  abbrev pub save_all : List Order → Option Order → v.Db → v.Db
  save_all [] none db = db
  save_all [] (some incoming) db = save_hash incoming db
  save_all (o ∷ os) incoming db = save_all os incoming (save_unless_gone o o.status db)

  mutate-settle :
      (pair_id : String) (o : Order) (status : OrderStatus) (db : v.Db)
      → mutate v lib pair_id
          (mutation v lib (if is_gone status then Op.remove o.side else Op.upsert o.side) o)
          db
        ≡ settle pair_id o status db
  unfolding mutate
  mutate-settle pair_id o OrderStatus.new db = refl
  mutate-settle pair_id o OrderStatus.partially_filled db = refl
  mutate-settle pair_id o OrderStatus.filled db = refl
  mutate-settle pair_id o OrderStatus.cancelled db = refl
  mutate-settle pair_id o OrderStatus.rejected db = refl

  mutate_all-settle_book :
      (pair_id : String) (os : List Order) (incoming : Option Order) (db : v.Db)
      → mutate_all v lib pair_id (mutations v lib os incoming) db
        ≡ settle_book pair_id os incoming db
  unfolding mutate_all mutations mutate
  mutate_all-settle_book pair_id [] none db = refl
  mutate_all-settle_book pair_id [] (some incoming) db = refl
  mutate_all-settle_book pair_id (o ∷ os) incoming db =
      mutate_all-settle_book pair_id os incoming
        (mutate v lib pair_id (mutation v lib (update_op v lib o) o) db)
      ∙ ap (settle_book pair_id os incoming) (mutate-settle pair_id o o.status db)

  write_hashes-kept :
      (o : Order) (status : OrderStatus) (rest : List Order) (db : v.Db)
      → write_hashes v lib (if is_gone status then rest else o ∷ rest) db
        ≡ write_hashes v lib rest (save_unless_gone o status db)
  unfolding write_hashes
  write_hashes-kept o OrderStatus.new rest db = refl
  write_hashes-kept o OrderStatus.partially_filled rest db = refl
  write_hashes-kept o OrderStatus.filled rest db = refl
  write_hashes-kept o OrderStatus.cancelled rest db = refl
  write_hashes-kept o OrderStatus.rejected rest db = refl

  write_hashes-save_all :
      (os : List Order) (incoming : Option Order) (db : v.Db)
      → write_hashes v lib (upsert_orders v lib os incoming) db ≡ save_all os incoming db
  unfolding write_hashes upsert_orders
  write_hashes-save_all [] none db = refl
  write_hashes-save_all [] (some incoming) db = refl
  write_hashes-save_all (o ∷ os) incoming db =
      write_hashes-kept o o.status (upsert_orders v lib os incoming) db
      ∙ write_hashes-save_all os incoming (save_unless_gone o o.status db)

module _ (v : Valkey) (keeps : KeepsText v) (lib : Crates) where
  get-write_hashes :
      (key : String) (os : List Order) (db : v.Db)
      → v.get key (write_hashes v lib os db) ≡ v.get key db
  unfolding write_hashes
  get-write_hashes key [] db = refl
  get-write_hashes key (o ∷ os) db =
      get-write_hashes key os (v.hset (order_key lib o.id) (hash_of lib o) db)
      ∙ keeps key (order_key lib o.id) (hash_of lib o) db

  module _ (pair_id : String) (n : ℤ) (updates : List Order) (incoming : Option Order)
      (db : v.Db) where
    -- The database after the hashes are written.
    abbrev written : v.Db
    written = write_hashes v lib (upsert_orders v lib updates incoming) db

    saved : written ≡ save_all v lib updates incoming db
    saved = write_hashes-save_all v lib updates incoming db

    settled :
        mutate_all v lib pair_id (mutations v lib updates incoming) written
        ≡ settle_book v lib pair_id updates incoming (save_all v lib updates incoming db)
    settled =
        mutate_all-settle_book v lib pair_id updates incoming written
        ∙ ap (settle_book v lib pair_id updates incoming) saved

    current-written : current v lib pair_id written ≡ current v lib pair_id db
    current-written =
        ap (λ found. elim found [ none ↦ "false" | some text ↦ text ])
          (get-write_hashes (version_key pair_id) (upsert_orders v lib updates incoming) db)

    cas-written :
        in_i64 n ≡ true
        → let out = apply_book_mutations_cas v lib pair_id n updates incoming db in
          (v.get (version_key pair_id) db ≡ none → out ≡ (CasResult.conflict, written))
          × ((m : ℤ)
              → in_i64 m ≡ true
              → v.get (version_key pair_id) db ≡ some (print_i64 m)
              → (m ≡ n
                  → out ≡ (
                    CasResult.ok,
                    v.incr
                        (version_key pair_id)
                        (mutate_all v lib pair_id (mutations v lib updates incoming) written),
                  ))
                × (m ≢ n → out ≡ (CasResult.conflict, written)))
    unfolding apply_book_mutations_cas cas_script
    cas-written hn = (
      (λ e. rw (current-written, e, false_ne_number n hn, current, cas_script)),
      λ m hm e. (
        (λ same. rw (current-written, e, same, eq_refl (print_i64 n), current, cas_script)),
        λ differ. elim (Bool-cases (str_eq (print_i64 m) (print_i64 n))) [
          | inl t ↦
              absurd
                (differ (print_i64-injective m n hm hn ((eq_iff (print_i64 m) (print_i64 n)).0 t)))
          | inr f ↦ rw (current-written, e, f, current, cas_script)
        ],
      ),
    )

    -- The swap succeeds exactly if the version counter exists and holds the expected number. First
    -- the hashes are written of the orders that are neither filled nor cancelled and of the incoming
    -- order; then, on success, every filled or cancelled order leaves its side of the book and loses
    -- its hash, every other one and then the incoming order is put on its side of the book, and the
    -- version counts up. A missing counter is a conflict, also for the expected version 0 that
    -- get_version gives for it. And a conflict leaves the hashes of the orders overwritten.
    pub apply_book_mutations_cas_lem :
        in_i64 n ≡ true
        → let out = apply_book_mutations_cas v lib pair_id n updates incoming db in
          let after = save_all v lib updates incoming db in
          (v.get (version_key pair_id) db ≡ none → out ≡ (CasResult.conflict, after))
          × ((m : ℤ)
              → in_i64 m ≡ true
              → v.get (version_key pair_id) db ≡ some (print_i64 m)
              → (m ≡ n
                  → out ≡ (
                    CasResult.ok,
                    v.incr (version_key pair_id) (settle_book v lib pair_id updates incoming after),
                  ))
                × (m ≢ n → out ≡ (CasResult.conflict, after)))
    apply_book_mutations_cas_lem hn =
        let by_cases = cas-written hn in
        let lost = ap (λ db'. (CasResult.conflict, db')) saved in
        (
          (λ e. by_cases.0 e ∙ lost),
          λ m hm e. (
            (λ same.
                (by_cases.1 m hm e).0 same
                ∙ ap (λ db'. (CasResult.ok, v.incr (version_key pair_id) db')) settled),
            λ differ. (by_cases.1 m hm e).1 differ ∙ lost,
          ),
        )
