-- ===== src/Engine/Tests.antt =====
-- Runs of match_order, after the tests of crates/shared/src/engine.rs, and its theorems at inputs.
use serverless_matching_engi.Prelude.{
  ℕ, ◌+◌, ◌<◌, ◌≤◌, min, String, List, [], ◌∷◌, ◌++◌, none, some, ◌≡◌, refl, ◌⊎◌, inl, All, length,
  drop, arith,
}
use serverless_matching_engi.Prelude.Int.{pos}
use serverless_matching_engi.Types.{
  Order, Side, OrderType, TimeInForce, OrderStatus, SelfTradePreventionMode,
}
use serverless_matching_engi.Engine.{
  Env, match_order, price_matches, available, run, walk, visit, apply_tif,
}
use serverless_matching_engi.Engine.Conservation.{traded, depth, match_order_conserves}
use serverless_matching_engi.Engine.Priority.{Swept, match_order-Swept}
use serverless_matching_engi.Engine.Parties.{IsProper, terms, match_order-IsProper}
use serverless_matching_engi.Engine.Fok.{match_order-min, match_order-fok}
use serverless_matching_engi.Engine.Status.{StatusSays, match_order-status}
use serverless_matching_engi.Engine.Updates.{match_order-book_updates}

abbrev env : Env
env = record { new_uuid = λ n. 1000 + n; now = λ n. 500 + n }

abbrev order : ℕ → String → Side → TimeInForce → ℕ → ℕ → Order
order id user side tif price qty = record {
  id = id;
  user_id = user;
  pair_id = "BTC-USDT";
  side = side;
  order_type = OrderType.limit;
  tif = tif;
  price = some (pos price);
  quantity = qty;
  remaining = qty;
  status = OrderStatus.new;
  stp_mode = SelfTradePreventionMode.cancel_taker;
  version = pos 1;
  sequence = pos 0;
  created_at = 0;
  updated_at = 0;
  client_order_id = none;
  received_at = none;
  matched_at = none;
  persisted_at = none;
}

-- Two asks of user-2 and one of user-1, the cheapest first.
abbrev asks : List Order
asks =
    order 11 "user-2" Side.sell TimeInForce.gtc 100 1
    ∷ order 12 "user-2" Side.sell TimeInForce.gtc 101 2
    ∷ order 13 "user-1" Side.sell TimeInForce.gtc 102 5
    ∷ []

abbrev buyer : TimeInForce → ℕ → ℕ → Order
buyer tif price qty = order 1 "user-1" Side.buy tif price qty

sweeps_two_levels : traded (match_order env (buyer TimeInForce.gtc 101 2) asks).0 ≡ 2
unfolding match_order run walk visit apply_tif price_matches
sweeps_two_levels = refl

-- After one level the resting order of the same user cancels the rest.
stopped_by_own_order :
    (match_order env (buyer TimeInForce.gtc 102 4) asks).0.incoming.status ≡ OrderStatus.cancelled
unfolding match_order run walk visit apply_tif price_matches
stopped_by_own_order = refl

match_order_conserves_example :
    let (result, book') = match_order env (buyer TimeInForce.ioc 101 2) asks in
    (traded result + result.incoming.remaining ≡ 2) × (traded result + depth book' ≡ 8)
match_order_conserves_example = match_order_conserves env (buyer TimeInForce.ioc 101 2) asks

match_order-Swept_example :
    let (result, book') = match_order env (buyer TimeInForce.gtc 101 2) asks in
    Swept (price_matches (buyer TimeInForce.gtc 101 2)) result.incoming asks book'
match_order-Swept_example = match_order-Swept env (buyer TimeInForce.gtc 101 2) asks

match_order-IsProper_example :
    All
      (IsProper (terms (buyer TimeInForce.gtc 102 4)))
      (match_order env (buyer TimeInForce.gtc 102 4) asks).0.trades
match_order-IsProper_example = match_order-IsProper env (buyer TimeInForce.gtc 102 4) asks

match_order-book_updates_example :
    let (result, book') = match_order env (buyer TimeInForce.gtc 101 2) asks in
    book' ≡ result.book_updates ++ drop (length result.book_updates) asks
match_order-book_updates_example = match_order-book_updates env (buyer TimeInForce.gtc 101 2) asks

abbrev others : List Order
others =
    order 11 "user-2" Side.sell TimeInForce.gtc 100 1
    ∷ order 12 "user-3" Side.sell TimeInForce.gtc 101 2
    ∷ []

match_order-min_example :
    traded (match_order env (buyer TimeInForce.ioc 101 9) others).0
    ≡ min 9 (available (buyer TimeInForce.ioc 101 9) others)
match_order-min_example =
    match_order-min env (buyer TimeInForce.ioc 101 9) others ((omega arith, tt), (tt, tt))
      (inl refl, (inl refl, tt)) (omega arith) refl

match_order-fok_example :
    let (result, book') = match_order env (buyer TimeInForce.fok 101 3) others in
    ((3 ≤ available (buyer TimeInForce.fok 101 3) others)
      × (traded result ≡ 3)
      × (result.incoming.remaining ≡ 0)
      × (result.incoming.status ≡ OrderStatus.filled))
    ⊎ ((available (buyer TimeInForce.fok 101 3) others < 3)
        × (result.trades ≡ [])
        × (book' ≡ others)
        × (result.incoming.status ≡ OrderStatus.cancelled))
match_order-fok_example =
    match_order-fok env (buyer TimeInForce.fok 101 3) others ((omega arith, tt), (tt, tt))
      (inl refl, (inl refl, tt)) (omega arith) refl

match_order-status_example :
    let result = (match_order env (buyer TimeInForce.gtc 100 4) others).0 in
    StatusSays (buyer TimeInForce.gtc 100 4) result result.incoming.status
match_order-status_example =
    match_order-status env (buyer TimeInForce.gtc 100 4) others refl (omega arith)
