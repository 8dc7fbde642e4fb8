-- ===== src/Engine/Parties.antt =====
-- The two sides and the price of every trade.
use serverless_matching_engi.Prelude.{
  ℕ, ◌≡◌, ◌≢◌, refl, ◌⊎◌, List, true, false, Option, none, some, arith, subst, String, All,
  All-push, length, str_eq, eq_iff,
}
use serverless_matching_engi.Prelude.Int.{◌≤ℤ◌}
use serverless_matching_engi.Types.{
  Order, OrderType, Side, Trade, Uuid, Decimal, SelfTradePreventionMode,
}
use serverless_matching_engi.Engine.{
  Env, MatchResult, halt, advance, reduce, filled_state, make_trade, run, match_order,
  effective_tif, walk, untouched, price_matches,
}
use serverless_matching_engi.Engine.Walk.{Visited, walk_invariant, match_order_cases, apply_tif_lem}

-- What the walk never changes of the incoming order.
pub record Terms : Type 0 where
  pub id : Uuid
  pub user_id : String
  pub pair_id : String
  pub side : Side
  pub order_type : OrderType
  pub price : Option Decimal
  pub stp_mode : SelfTradePreventionMode

abbrev pub terms : Order → Terms
terms o = record {
  id = o.id;
  user_id = o.user_id;
  pair_id = o.pair_id;
  side = o.side;
  order_type = o.order_type;
  price = o.price;
  stp_mode = o.stp_mode;
}

-- The order stands on its own side of the trade.
abbrev pub OnSide : Side → Terms → Trade → Type 0
OnSide Side.buy o t = (t.buyer_id ≡ o.user_id) × (t.buy_order_id ≡ o.id)
OnSide Side.sell o t = (t.seller_id ≡ o.user_id) × (t.sell_order_id ≡ o.id)

-- A limit order trades at its limit or better, and has one; a market order at any price.
abbrev pub WithinLimit : OrderType → Side → Option Decimal → Decimal → Type 0
WithinLimit OrderType.market side limit price = Unit
WithinLimit OrderType.limit Side.buy (some limit) price = price ≤ℤ limit
WithinLimit OrderType.limit Side.sell (some limit) price = limit ≤ℤ price
WithinLimit OrderType.limit side none price = ⊥

pub record IsProper (o : Terms) (t : Trade) : Type 0 where
  pub pair : t.pair_id ≡ o.pair_id
  pub on_side : OnSide o.side o t
  pub within_limit : WithinLimit o.order_type o.side o.price t.price
  pub no_self_trade : (o.stp_mode ≡ SelfTradePreventionMode.none) ⊎ (t.buyer_id ≢ t.seller_id)

module _ (env : Env) (n : ℕ) (o r : Order) (m : price_matches o r ≡ true) where
  trade-OnSide : OnSide o.side (terms o) (make_trade env n o r)
  unfolding make_trade
  trade-OnSide = ground arith

  trade-WithinLimit : WithinLimit o.order_type o.side o.price (make_trade env n o r).price
  unfolding make_trade price_matches
  trade-WithinLimit = ground arith

  trade-no_self_trade :
      (str_eq o.user_id r.user_id ≡ false) ⊎ (o.stp_mode ≡ SelfTradePreventionMode.none)
      → (o.stp_mode ≡ SelfTradePreventionMode.none)
        ⊎ ((make_trade env n o r).buyer_id ≢ (make_trade env n o r).seller_id)
  unfolding make_trade
  trade-no_self_trade u = ground (arith, eq_iff o.user_id r.user_id)

-- The trades so far are proper for the terms `o`, which are those of the incoming order.
abbrev AllProper : Terms → MatchResult → Type 0
AllProper o s = (terms s.incoming ≡ o) × All (IsProper o) s.trades

round-AllProper_halt :
    (env : Env) (o : Terms) (s : MatchResult) (r : Order) (s' : MatchResult) (r' : Order)
    → AllProper o s
    → Visited env s r (halt s' r')
    → AllProper o s'
round-AllProper_halt env o s r s' r' h (Visited.done e) = h
round-AllProper_halt env o s r s' r' h (Visited.apart e) = h
round-AllProper_halt env o s r s' r' h (Visited.taker p m u) = h
round-AllProper_halt env o s r s' r' h (Visited.both p m u) = h

make_trade-IsProper :
    (env : Env) (n : ℕ) (o r : Order)
    → price_matches o r ≡ true
    → (str_eq o.user_id r.user_id ≡ false) ⊎ (o.stp_mode ≡ SelfTradePreventionMode.none)
    → IsProper (terms o) (make_trade env n o r)
make_trade-IsProper env n o r m u = record {
  pair = unfold make_trade in refl;
  on_side = trade-OnSide env n o r m;
  within_limit = trade-WithinLimit env n o r m;
  no_self_trade = trade-no_self_trade env n o r m u;
}

fill-AllProper :
    (env : Env) (o : Terms) (s : MatchResult) (r : Order)
    → AllProper o s
    → IsProper o (make_trade env (length s.trades) s.incoming r)
    → AllProper o (filled_state env s r)
unfolding filled_state reduce
fill-AllProper env o s r h p = (h.0, All-push (IsProper o) s.trades _ h.1 p)

round-AllProper_advance :
    (env : Env) (o : Terms) (s : MatchResult) (r : Order) (s' : MatchResult) (r' : Order)
    → AllProper o s
    → Visited env s r (advance s' r')
    → AllProper o s'
round-AllProper_advance env o s r s' r' h (Visited.maker p m u) = h
round-AllProper_advance env o s r s' r' h (Visited.traded p m u) = fill-AllProper env o s r h (
    subst (λ x. IsProper x (make_trade env (length s.trades) s.incoming r)) h.0
      (make_trade-IsProper env (length s.trades) s.incoming r m u))

walk-AllProper :
    (env : Env) (o : Order) (book : List Order)
    → All (IsProper (terms o)) (walk env (untouched o) book).0.trades
walk-AllProper env o book =
    (walk_invariant env (AllProper (terms o)) (round-AllProper_halt env (terms o))
      (round-AllProper_advance env (terms o)) (untouched o) book (refl, tt)).1

run-AllProper :
    (env : Env) (o : Order) (book : List Order) → All (IsProper (terms o)) (run env o book).0.trades
unfolding run
run-AllProper env o book =
    rw (apply_tif_lem (effective_tif o) (walk env (untouched o) book).0).0
      (walk-AllProper env o book)

-- Every trade is in the pair of the incoming order and has that order and its user on the side that
-- it came with; a limit order trades at its limit or better, and only if it has one; and no user
-- trades with itself unless the mode is `none`.
pub match_order-IsProper :
    (env : Env) (incoming : Order) (book : List Order)
    → All (IsProper (terms incoming)) (match_order env incoming book).0.trades
match_order-IsProper env incoming book =
    match_order_cases (λ w. All (IsProper (terms incoming)) w.0.trades) env incoming book
      (λ _ _. tt) (λ _. run-AllProper env incoming book)
