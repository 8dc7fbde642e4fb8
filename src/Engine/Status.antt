-- ===== src/Engine/Status.antt =====
-- What the status of the incoming order says after match_order.
use serverless_matching_engi.Prelude.{
  ℕ, ◌+◌, ◌-◌, ◌<◌, ◌≡◌, refl, List, [], ◌∷◌, true, false, arith, length, length-append, str_eq,
  ◌≤◌,
}
use serverless_matching_engi.Types.{
  Order, OrderStatus, OrderType, TimeInForce, SelfTradePreventionMode, Quantity,
}
use serverless_matching_engi.Engine.{
  Env, MatchResult, halt, advance, reduce, make_trade, filled_state, run, match_order,
  effective_tif, walk, visit, untouched, apply_tif, is_fok, price_matches, available,
}
use serverless_matching_engi.Engine.Walk.{Visited, walk_invariant, match_order_cases}
use serverless_matching_engi.Engine.Conservation.{traded}

-- During the loop, for an order that came in as `new`.
abbrev SaysSoFar : OrderStatus → ℕ → Quantity → Type 0
SaysSoFar OrderStatus.new trades remaining = (trades ≡ 0) × (0 < remaining)
SaysSoFar OrderStatus.partially_filled trades remaining = (0 < trades) × (0 < remaining)
SaysSoFar OrderStatus.filled trades remaining = (0 < trades) × (remaining ≡ 0)
SaysSoFar OrderStatus.cancelled trades remaining = 0 < remaining
SaysSoFar OrderStatus.rejected trades remaining = ⊥

abbrev IsTold : MatchResult → Type 0
IsTold s = SaysSoFar s.incoming.status (length s.trades) s.incoming.remaining

halt-IsTold :
    (env : Env) (s : MatchResult) (r : Order) (s' : MatchResult) (r' : Order)
    → IsTold s
    → Visited env s r (halt s' r')
    → IsTold s'
halt-IsTold env s r s' r' h (Visited.done e) = h
halt-IsTold env s r s' r' h (Visited.apart e) = h
halt-IsTold env s r s' r' h (Visited.taker p m u) = p
halt-IsTold env s r s' r' h (Visited.both p m u) = p

fill-IsTold : (env : Env) (s : MatchResult) (r : Order) → IsTold (filled_state env s r)
unfolding filled_state reduce
fill-IsTold env s r =
    ground (arith, length-append {0} s.trades (make_trade env (length s.trades) s.incoming r ∷ []))

advance-IsTold :
    (env : Env) (s : MatchResult) (r : Order) (s' : MatchResult) (r' : Order)
    → IsTold s
    → Visited env s r (advance s' r')
    → IsTold s'
advance-IsTold env s r s' r' h (Visited.maker p m u) = h
advance-IsTold env s r s' r' h (Visited.traded p m u) = fill-IsTold env s r

-- After the call. An order rests, as `new` or `partially_filled`, only as a limit order that is
-- good till cancelled.
abbrev pub StatusSays : Order → MatchResult → OrderStatus → Type 0
StatusSays o result OrderStatus.new =
    (o.order_type ≡ OrderType.limit)
    × (o.tif ≡ TimeInForce.gtc)
    × (result.trades ≡ [])
    × (0 < result.incoming.remaining)
StatusSays o result OrderStatus.partially_filled =
    (o.order_type ≡ OrderType.limit)
    × (o.tif ≡ TimeInForce.gtc)
    × (0 < length result.trades)
    × (0 < result.incoming.remaining)
StatusSays o result OrderStatus.filled =
    (0 < length result.trades) × (result.incoming.remaining ≡ 0)
StatusSays o result OrderStatus.cancelled = 0 < result.incoming.remaining
StatusSays o result OrderStatus.rejected = ⊥

apply_tif-says :
    (o : Order) (s : MatchResult)
    → IsTold s
    → let t = apply_tif (effective_tif o) s in StatusSays o t t.incoming.status
unfolding apply_tif
apply_tif-says o s h = ground arith

-- What the status of the result tells, for an order that comes in as `new` with something to trade:
-- `filled` exactly when nothing is left; `new` or `partially_filled` for a limit order that is good
-- till cancelled and rests, without or with trades; `cancelled` with something left; never
-- `rejected`. So a market order and an order that is immediate-or-cancel or fill-or-kill never rests.
pub match_order-status :
    (env : Env) (incoming : Order) (book : List Order)
    → incoming.status ≡ OrderStatus.new
    → 0 < incoming.remaining
    → let result = (match_order env incoming book).0 in
      StatusSays incoming result result.incoming.status
match_order-status env incoming book new_order open_order =
    match_order_cases (λ w. StatusSays incoming w.0 w.0.incoming.status) env incoming book
      (λ _ _. open_order) (λ _. run-says)
  where
    run-says :
        let result = (run env incoming book).0 in StatusSays incoming result result.incoming.status
    run-says =
        unfold run in
        apply_tif-says incoming (walk env (untouched incoming) book).0 (
          walk_invariant env IsTold (halt-IsTold env) (advance-IsTold env) (untouched incoming) book
            (rw new_order (refl, open_order)))

module _ (env : Env) (o r q : Order) (rest : List Order) where
  -- The FOK check counts the orders of the incoming order's own user, which the loop will not trade
  -- with. So a fill-or-kill order with the mode `cancel_taker` that meets another user's order with
  -- too little and then one of its own user trades with the first and is cancelled with the rest
  -- left: it is neither filled nor killed.
  pub fok_partial :
      is_fok o.tif ≡ true
      → o.stp_mode ≡ SelfTradePreventionMode.cancel_taker
      → str_eq o.user_id r.user_id ≡ false
      → str_eq o.user_id q.user_id ≡ true
      → price_matches o r ≡ true
      → price_matches o q ≡ true
      → r.remaining < o.remaining
      → o.remaining ≤ r.remaining + q.remaining
      → let result = (match_order env o (r ∷ q ∷ rest)).0 in
        (traded result ≡ r.remaining)
        × (result.incoming.remaining ≡ o.remaining - r.remaining)
        × (result.incoming.status ≡ OrderStatus.cancelled)
  unfolding match_order run walk visit apply_tif available
  fok_partial f m u v p t a b = ground arith
