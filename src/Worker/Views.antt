-- ===== src/Worker/Views.antt =====
-- update_cache_after_processing of crates/gateway/src/worker.rs with build_trades_json,
-- build_ticker_json and build_portfolio_json: the views that are written after an order. The texts
-- of the views are parameters, and so is the order of the rows that a query leaves open: here the
-- older row comes first among equals. A key is a datum in place of its text, and the set of users
-- is a list in the order of their first occurrence. A query that fails is not modelled.
pub mod Portfolio
pub mod Whole
use Prim.Native.String.{compare as compare_str}
use Prim.Native.Nat.{Ordering}
use serverless_matching_engi.Prelude.{
  ℕ, ◌+◌, ◌-◌, String, Bool, true, false, ◌&&◌, ◌||◌, not, Option, none, some, List, [], ◌∷◌, ◌++◌,
  map, str_eq, if◌then◌else◌, ltb, leb, take,
}
use serverless_matching_engi.Prelude.Int.{ltb_ℤ}
use serverless_matching_engi.Types.{Order, OrderStatus, Trade, DateTime, Decimal, Quantity}
use serverless_matching_engi.Worker.Persist.{Balance, Tables}

-- The cached keys of a pair, and of a user.
pub data CachedView : Type 0 where
  orderbook trades ticker portfolio : String → CachedView

pub record Ticker : Type 0 where
  pub last : Option Decimal
  pub high_24h : Option Decimal
  pub low_24h : Option Decimal
  pub volume_24h : Option Quantity

-- Both sides of a snapshot of the book, as texts of price and quantity.
abbrev pub Levels : Type 0
Levels = List (String × String) × List (String × String)

pub record JsonPrinters : Type 0 where
  pub orderbook : String → Levels → String
  pub trades : String → List Trade → String
  pub ticker : String → Ticker → String
  pub portfolio : List Balance → String

abbrev pub trades_of : String → List Trade → List Trade
trades_of pair [] = []
trades_of pair (t ∷ rows) =
    let rest = trades_of pair rows in if str_eq t.pair_id pair then t ∷ rest else rest

abbrev pub insert_trade : Trade → List Trade → List Trade
insert_trade t [] = t ∷ []
insert_trade t (u ∷ rows) =
    let rest = insert_trade t rows in
    if leb u.created_at t.created_at then t ∷ u ∷ rows else u ∷ rest

-- ORDER BY created_at DESC.
abbrev pub newest_first : List Trade → List Trade
newest_first [] = []
newest_first (t ∷ rows) = insert_trade t (newest_first rows)

unfoldable pub build_trades_json : JsonPrinters → String → List Trade → String
build_trades_json json pair rows = json.trades pair (take 50 (newest_first (trades_of pair rows)))

-- MAX, MIN and SUM, which are NULL for no rows.
abbrev pub merge {ℓ} : {A : Type ℓ} → (A → A → A) → A → Option A → Option A
merge f a none = some a
merge f a (some b) = some (f a b)

abbrev pub fold_option {ℓ} : {A : Type ℓ} → (A → A → A) → List A → Option A
fold_option f [] = none
fold_option f (a ∷ rest) = merge f a (fold_option f rest)

abbrev pub larger : Decimal → Decimal → Decimal
larger a b = if ltb_ℤ a b then b else a

abbrev pub smaller : Decimal → Decimal → Decimal
smaller a b = if ltb_ℤ b a then b else a

-- `created_at >= NOW() - INTERVAL '24 hours'`, with `day` for the interval.
abbrev pub since : ℕ → DateTime → List Trade → List Trade
since day now [] = []
since day now (t ∷ rows) =
    let rest = since day now rows in if leb now (t.created_at + day) then t ∷ rest else rest

abbrev pub first_price : List Trade → Option Decimal
first_price [] = none
first_price (t ∷ rows) = some t.price

unfoldable pub build_ticker_json : JsonPrinters → ℕ → DateTime → String → List Trade → String
build_ticker_json json day now pair rows =
    let of_pair = trades_of pair rows in
    let recent = since day now of_pair in
    json.ticker pair (record {
      last = first_price (newest_first of_pair);
      high_24h = fold_option larger (map (λ (t : Trade). t.price) recent);
      low_24h = fold_option smaller (map (λ (t : Trade). t.price) recent);
      volume_24h = fold_option (λ (a b : Quantity). a + b) (map (λ (t : Trade). t.quantity) recent);
    })

abbrev pub balances_of : String → List Balance → List Balance
balances_of user [] = []
balances_of user (b ∷ rows) =
    let rest = balances_of user rows in if str_eq b.user_id user then b ∷ rest else rest

abbrev pub insert_balance : Balance → List Balance → List Balance
insert_balance b [] = b ∷ []
insert_balance b (c ∷ rows) =
    let rest = insert_balance b rows in
    elim (compare_str c.asset b.asset) [ Ordering.lt ↦ c ∷ rest | _ ↦ b ∷ c ∷ rows ]

-- ORDER BY asset.
abbrev pub by_asset : List Balance → List Balance
by_asset [] = []
by_asset (b ∷ rows) = insert_balance b (by_asset rows)

unfoldable pub build_portfolio_json : JsonPrinters → String → List Balance → String
build_portfolio_json json user rows = json.portfolio (by_asset (balances_of user rows))

abbrev pub is_dirty : String → List String → Bool
is_dirty user [] = false
is_dirty user (u ∷ users) = str_eq u user || is_dirty user users

-- `insert` into the set.
abbrev pub mark_dirty : String → List String → List String
mark_dirty user users = if is_dirty user users then users else users ++ user ∷ []

unfoldable pub mark_parties : List Trade → List String → List String
mark_parties [] users = users
mark_parties (t ∷ ts) users = mark_parties ts (mark_dirty t.seller_id (mark_dirty t.buyer_id users))

unfoldable pub dirty_users : Order → List Trade → List String
dirty_users o ts = mark_parties ts (mark_dirty o.user_id [])

abbrev pub has_rested : OrderStatus → Bool
has_rested OrderStatus.new = true
has_rested OrderStatus.partially_filled = true
has_rested _ = false

abbrev pub had_trades : List Trade → Bool
had_trades [] = false
had_trades (t ∷ ts) = true

-- Whether the refresh goes on.
abbrev pub refreshes : Order → List Trade → Bool
refreshes o ts = had_trades ts || has_rested o.status

abbrev pub portfolio_entries :
    JsonPrinters → List String → List Balance → List (CachedView × String)
portfolio_entries json users rows =
    map (λ (user : String). (CachedView.portfolio user, build_portfolio_json json user rows)) users

-- The batch that goes to set_and_publish_batch, with a snapshot of the book.
unfoldable pub update_cache_after_processing :
    JsonPrinters → ℕ → DateTime → Levels → Order → List Trade → Tables → List (CachedView × String)
update_cache_after_processing json day now levels o ts t =
    if refreshes o ts
    then (CachedView.orderbook o.pair_id, json.orderbook o.pair_id levels)
      ∷ (CachedView.trades o.pair_id, build_trades_json json o.pair_id t.trades)
      ∷ (CachedView.ticker o.pair_id, build_ticker_json json day now o.pair_id t.trades)
      ∷ portfolio_entries json (dirty_users o ts) t.balances
    else []
