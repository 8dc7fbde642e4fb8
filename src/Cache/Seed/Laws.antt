-- ===== src/Cache/Seed/Laws.antt =====
-- What seed_orderbook_from_pg makes of the orders that were persisted.
use serverless_matching_engi.Prelude.{
  Bool, true, false, ◌&&◌, ◌||◌, All, arith, none, some, List, [], ◌∷◌, map, ◌≡◌, refl, ap, ◌∙◌,
  leb, if◌then◌else◌, Bool-cases, inl, inr, str_eq,
}
use serverless_matching_engi.Prelude.Int.{pos}
use serverless_matching_engi.Types.{
  Order, Side, OrderType, TimeInForce, OrderStatus, SelfTradePreventionMode,
}
use serverless_matching_engi.Cache.Crates.{Crates}
use serverless_matching_engi.Cache.Fields.{order_fields}
use serverless_matching_engi.Cache.Valkey.{Valkey}
use serverless_matching_engi.Cache.Book.{save_order_to_book}
use serverless_matching_engi.Worker.Persist.{is_open}
use serverless_matching_engi.Gateway.Orders.{side_str, order_type_str, tif_str, stp_str}
use serverless_matching_engi.Cache.Seed.{
  status_str, row_of, side_of_text, order_type_of_text, tif_of_text, status_of_text, stp_of_text,
  order_of_row, is_resting, insert_row, resting_rows, save_some, seed_rows, seed_orderbook_from_pg,
}

abbrev is_gtc : TimeInForce → Bool
is_gtc TimeInForce.gtc = true
is_gtc _ = false

-- An open order that is good till cancelled.
abbrev pub rests : Order → Bool
rests o = is_open o.status && is_gtc o.tif

-- In the order of their creation.
abbrev pub insert_by_time : Order → List Order → List Order
insert_by_time o [] = o ∷ []
insert_by_time o (p ∷ os) =
    let rest = insert_by_time o os in if leb o.created_at p.created_at then o ∷ p ∷ os else p ∷ rest

abbrev pub resting_by_time : List Order → List Order
resting_by_time [] = []
resting_by_time (o ∷ os) =
    let rest = resting_by_time os in if rests o then insert_by_time o rest else rest

open_text :
    (s : OrderStatus)
    → (str_eq (status_str s) "New" || str_eq (status_str s) "PartiallyFilled") ≡ is_open s
unfolding status_str
open_text OrderStatus.new = refl
open_text OrderStatus.partially_filled = refl
open_text OrderStatus.filled = refl
open_text OrderStatus.cancelled = refl
open_text OrderStatus.rejected = refl

gtc_text : (t : TimeInForce) → str_eq (tif_str t) "GTC" ≡ is_gtc t
unfolding tif_str
gtc_text TimeInForce.gtc = refl
gtc_text TimeInForce.ioc = refl
gtc_text TimeInForce.fok = refl

is_resting-row_of : (o : Order) → is_resting (row_of o) ≡ rests o
unfolding row_of
is_resting-row_of o = rw (open_text o.status, gtc_text o.tif)

side_text : (s : Side) → side_of_text (side_str s) ≡ some s
unfolding side_str
side_text Side.buy = refl
side_text Side.sell = refl

order_type_text : (t : OrderType) → order_type_of_text (order_type_str t) ≡ some t
unfolding order_type_str
order_type_text OrderType.limit = refl
order_type_text OrderType.market = refl

tif_text : (t : TimeInForce) → tif_of_text (tif_str t) ≡ some t
unfolding tif_str
tif_text TimeInForce.gtc = refl
tif_text TimeInForce.ioc = refl
tif_text TimeInForce.fok = refl

stp_text : (m : SelfTradePreventionMode) → stp_of_text (stp_str m) ≡ m
unfolding stp_str
stp_text SelfTradePreventionMode.none = refl
stp_text SelfTradePreventionMode.cancel_maker = refl
stp_text SelfTradePreventionMode.cancel_taker = refl
stp_text SelfTradePreventionMode.cancel_both = refl

status_text : (s : OrderStatus) → is_open s ≡ true → status_of_text (status_str s) ≡ s
unfolding status_str
status_text OrderStatus.new h = refl
status_text OrderStatus.partially_filled h = refl
status_text OrderStatus.filled h = absurd (ground arith)
status_text OrderStatus.cancelled h = absurd (ground arith)
status_text OrderStatus.rejected h = absurd (ground arith)

-- What a row keeps of an order.
abbrev kept : Order → Order
kept o = record o {
  sequence = pos 0;
  updated_at = o.created_at;
  client_order_id = none;
  received_at = none;
  matched_at = none;
  persisted_at = none;
}

order_of_row-row_of :
    (o : Order) → is_open o.status ≡ true → order_of_row (row_of o) ≡ some (kept o)
unfolding order_of_row row_of
order_of_row-row_of o h = rw (
  side_text o.side,
  order_type_text o.order_type,
  tif_text o.tif,
  status_text o.status h,
  stp_text o.stp_mode,
)

insert_row-row_of :
    (o : Order) (os : List Order)
    → insert_row (row_of o) (map row_of os) ≡ map row_of (insert_by_time o os)
unfolding insert_row row_of
insert_row-row_of o [] = refl
insert_row-row_of o (p ∷ os) = elim (Bool-cases (leb o.created_at p.created_at)) [
  | inl e ↦ rw (insert_row, e)
  | inr e ↦ rw (insert_row, e) (ap (λ rows. row_of p ∷ rows) (insert_row-row_of o os))
]

resting_rows-row_of :
    (os : List Order) → resting_rows (map row_of os) ≡ map row_of (resting_by_time os)
unfolding resting_rows
resting_rows-row_of [] = refl
resting_rows-row_of (o ∷ os) = elim (Bool-cases (rests o)) [
  | inl e ↦
      rw (resting_rows, is_resting-row_of o, e)
        (ap (insert_row (row_of o)) (resting_rows-row_of os)
          ∙ insert_row-row_of o (resting_by_time os))
  | inr e ↦ rw (resting_rows, is_resting-row_of o, e) (resting_rows-row_of os)
]

abbrev AreOpen : List Order → Type 0
AreOpen = All (λ o. is_open o.status ≡ true)

insert_by_time-AreOpen :
    (o : Order) (os : List Order)
    → is_open o.status ≡ true
    → AreOpen os
    → AreOpen (insert_by_time o os)
insert_by_time-AreOpen o [] h hs = (h, tt)
insert_by_time-AreOpen o (p ∷ os) h hs = elim (Bool-cases (leb o.created_at p.created_at)) [
  | inl e ↦ rw (insert_by_time, e) (h, hs)
  | inr e ↦ rw (insert_by_time, e) (hs.0, insert_by_time-AreOpen o os h hs.1)
]

resting_by_time-AreOpen : (os : List Order) → AreOpen (resting_by_time os)
resting_by_time-AreOpen [] = tt
resting_by_time-AreOpen (o ∷ os) = elim (Bool-cases (rests o)) [
  | inl e ↦
      rw (resting_by_time, e)
        (insert_by_time-AreOpen o (resting_by_time os) (ground arith) (resting_by_time-AreOpen os))
  | inr e ↦ rw (resting_by_time, e) (resting_by_time-AreOpen os)
]

module _ (v : Valkey) (lib : Crates) where
  -- The orders saved to the book, one after the other.
  abbrev pub save_all : List Order → v.Db → v.Db
  save_all [] db = db
  save_all (o ∷ os) db = save_all os (save_order_to_book v lib o db)

  save-kept :
      (o : Order) (db : v.Db) → save_order_to_book v lib (kept o) db ≡ save_order_to_book v lib o db
  unfolding save_order_to_book order_fields
  save-kept o db = refl

  seed_rows-row_of :
      (os : List Order) (db : v.Db)
      → AreOpen os
      → seed_rows v lib (map row_of os) db ≡ save_all os db
  unfolding seed_rows
  seed_rows-row_of [] db h = refl
  seed_rows-row_of (o ∷ os) db h =
      ap (λ found. seed_rows v lib (map row_of os) (save_some v lib found db))
        (order_of_row-row_of o h.0)
      ∙ ap (seed_rows v lib (map row_of os)) (save-kept o db)
      ∙ seed_rows-row_of os (save_order_to_book v lib o db) h.1

  -- Seeding from the rows of persisted orders does what saving the orders themselves to the book
  -- does, for exactly those that are open and good till cancelled, in the order of their creation.
  pub seed_orderbook_from_pg-row_of :
      (os : List Order) (db : v.Db)
      → seed_orderbook_from_pg v lib (map row_of os) db ≡ save_all (resting_by_time os) db
  unfolding seed_orderbook_from_pg
  seed_orderbook_from_pg-row_of os db =
      ap (λ rows. seed_rows v lib rows db) (resting_rows-row_of os)
      ∙ seed_rows-row_of (resting_by_time os) db (resting_by_time-AreOpen os)
