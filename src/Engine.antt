-- ===== src/Engine.antt =====
-- match_order and price_matches of crates/shared/src/engine.rs: an incoming order walks the
-- resting orders of the opposite side, best price first, oldest first within a price.
--
-- The loop body is `visit`, its `break` is `halt` and its `continue` or last line is `advance`;
-- both carry the resting order as the body leaves it, since the source changes it in place.
-- `Uuid::new_v4` and `Utc::now` are parameters, taken at the number of calls made before.
pub mod Walk
pub mod Conservation
pub mod Priority
pub mod Parties
pub mod Fok
pub mod Status
pub mod Updates
mod Tests
use serverless_matching_engi.Prelude.{
  ℕ, ◌+◌, ◌-◌, ◌*◌, min, Bool, true, false, Option, none, some, List, [], ◌∷◌, ◌++◌, ltb, ◌==◌,
  if◌then◌else◌, str_eq, length, sum_by,
}
use serverless_matching_engi.Prelude.Int.{pos, leb_ℤ}
use serverless_matching_engi.Types.{
  Side, OrderType, TimeInForce, OrderStatus, SelfTradePreventionMode, Order, Trade, Uuid, DateTime,
  Decimal, Quantity,
}

-- The clock and the source of identifiers.
pub record Env : Type 0 where
  pub new_uuid : ℕ → Uuid
  pub now : ℕ → DateTime

pub record MatchResult : Type 0 where
  pub trades : List Trade
  pub book_updates : List Order
  pub incoming : Order
  pub stp_cancelled : List Order

pub crosses : Side → Option Decimal → Option Decimal → Bool
crosses Side.buy (some bid) (some ask) = leb_ℤ ask bid
crosses Side.sell (some ask) (some bid) = leb_ℤ ask bid
crosses _ _ _ = false

unfoldable pub price_matches : Order → Order → Bool
unfolding crosses
price_matches incoming resting = elim incoming.order_type [
  | OrderType.market ↦ true
  | OrderType.limit ↦ crosses incoming.side incoming.price resting.price
]

-- `Option::unwrap_or`.
abbrev pub unwrap_or {ℓ} : {A : Type ℓ} → Option A → A → A
unwrap_or (some a) d = a
unwrap_or none d = d

abbrev pub fill_qty : Order → Order → Quantity
fill_qty incoming resting = min incoming.remaining resting.remaining

abbrev pub fill_price : Order → Order → Decimal
fill_price incoming resting = unwrap_or resting.price (unwrap_or incoming.price (pos 0))

-- The two parties, the buyer first, by the side of the incoming order.
abbrev pub parties {ℓ} : {A : Type ℓ} → Side → A → A → A × A
parties Side.buy incoming resting = (incoming, resting)
parties Side.sell incoming resting = (resting, incoming)

abbrev pub cancel : Order → Order
cancel o = record o { status = OrderStatus.cancelled }

abbrev pub settled : Quantity → OrderStatus
settled remaining = if remaining == 0 then OrderStatus.filled else OrderStatus.partially_filled

-- The order after `qty` of it has traded at the time `now`.
pub reduce : DateTime → Quantity → Order → Order
reduce now qty o = record o {
  remaining = o.remaining - qty;
  status = settled (o.remaining - qty);
  updated_at = now;
}

pub data Outcome : Type 0 where
  halt advance : MatchResult → Order → Outcome

pub make_trade : Env → ℕ → Order → Order → Trade
make_trade env n incoming resting =
    let (buy_order, sell_order) = parties incoming.side incoming resting in
    record {
      id = env.new_uuid n;
      pair_id = incoming.pair_id;
      buy_order_id = buy_order.id;
      sell_order_id = sell_order.id;
      buyer_id = buy_order.user_id;
      seller_id = sell_order.user_id;
      price = fill_price incoming resting;
      quantity = fill_qty incoming resting;
      sequence = pos 0;
      created_at = env.now (3 * n);
    }

-- The resting and the incoming order after the fill, and the trade recorded.
pub filled_resting : Env → MatchResult → Order → Order
filled_resting env s resting =
    reduce (env.now (3 * length s.trades + 1)) (fill_qty s.incoming resting) resting

pub filled_state : Env → MatchResult → Order → MatchResult
filled_state env s resting = record {
  trades = s.trades ++ make_trade env (length s.trades) s.incoming resting ∷ [];
  book_updates = s.book_updates ++ filled_resting env s resting ∷ [];
  incoming = reduce (env.now (3 * length s.trades + 2)) (fill_qty s.incoming resting) s.incoming;
  stp_cancelled = s.stp_cancelled;
}

abbrev pub fill : Env → MatchResult → Order → Outcome
fill env s resting = advance (filled_state env s resting) (filled_resting env s resting)

-- The check for a trade of a user with itself; with the mode `none` the trade goes on.
pub prevent : SelfTradePreventionMode → Env → MatchResult → Order → Outcome
prevent SelfTradePreventionMode.none env s resting = fill env s resting
prevent SelfTradePreventionMode.cancel_taker env s resting =
    halt
      (record s {
        incoming = cancel s.incoming;
        stp_cancelled = s.stp_cancelled ++ cancel s.incoming ∷ [];
      })
      resting
prevent SelfTradePreventionMode.cancel_maker env s resting =
    advance
      (record s {
        stp_cancelled = s.stp_cancelled ++ cancel resting ∷ [];
        book_updates = s.book_updates ++ cancel resting ∷ [];
      })
      (cancel resting)
prevent SelfTradePreventionMode.cancel_both env s resting =
    halt
      (record s {
        incoming = cancel s.incoming;
        stp_cancelled = s.stp_cancelled ++ (cancel s.incoming ∷ cancel resting ∷ []);
        book_updates = s.book_updates ++ cancel resting ∷ [];
      })
      (cancel resting)

pub visit : Env → MatchResult → Order → Outcome
unfolding prevent filled_state filled_resting make_trade reduce
visit env s resting =
    if s.incoming.remaining == 0
    then halt s resting
    else if price_matches s.incoming resting
    then if str_eq s.incoming.user_id resting.user_id
      then prevent s.incoming.stp_mode env s resting
      else fill env s resting
    else halt s resting

-- The loop, with the book as it leaves it.
pub walk : Env → MatchResult → List Order → MatchResult × List Order
walk env s [] = (s, [])
walk env s (resting ∷ rest) = elim (visit env s resting) [
  | halt s' resting' ↦ (s', resting' ∷ rest)
  | advance s' resting' ↦ let (s'', rest') = walk env s' rest in (s'', resting' ∷ rest')
]

-- What the FOK check counts: every resting order at a matching price, its owner regardless.
pub available : Order → List Order → Quantity
available incoming [] = 0
available incoming (r ∷ rest) =
    (if price_matches incoming r then r.remaining else 0) + available incoming rest

abbrev pub effective_tif : Order → TimeInForce
effective_tif o = elim o.order_type [ OrderType.market ↦ TimeInForce.ioc | OrderType.limit ↦ o.tif ]

-- The status of an order that has something left and was not cancelled in the loop.
abbrev pub leftover : TimeInForce → List Trade → OrderStatus → OrderStatus
leftover TimeInForce.gtc [] status = OrderStatus.new
leftover TimeInForce.gtc (t ∷ ts) status = status
leftover TimeInForce.ioc ts status = OrderStatus.cancelled
leftover TimeInForce.fok ts status = OrderStatus.cancelled

abbrev pub is_cancelled : OrderStatus → Bool
is_cancelled OrderStatus.cancelled = true
is_cancelled _ = false

pub apply_tif : TimeInForce → MatchResult → MatchResult
apply_tif tif s =
    if s.incoming.remaining == 0
    then s
    else if is_cancelled s.incoming.status
    then s
    else record s {
      incoming = record (s.incoming) { status = leftover tif s.trades s.incoming.status };
    }

abbrev pub untouched : Order → MatchResult
untouched o = record { trades = []; book_updates = []; incoming = o; stp_cancelled = [] }

-- The walk and the rules after it.
pub run : Env → Order → List Order → MatchResult × List Order
run env incoming book =
    let (s, book') = walk env (untouched incoming) book in
    (apply_tif (effective_tif incoming) s, book')

abbrev pub is_fok : TimeInForce → Bool
is_fok TimeInForce.fok = true
is_fok _ = false

-- The result, and the slice `book` as the call leaves it.
unfoldable pub match_order : Env → Order → List Order → MatchResult × List Order
match_order env incoming book =
    if is_fok incoming.tif
    then if ltb (available incoming book) incoming.remaining
      then (untouched (cancel incoming), book)
      else run env incoming book
    else run env incoming book
