-- ===== src/Engine/Conservation.antt =====
-- Nothing traded is lost or made up: the incoming order and the book give what the trades take.
use serverless_matching_engi.Prelude.{
  ◌+◌, ◌≡◌, refl, List, [], ◌∷◌, sum_by, sum_by-append, length, arith,
}
use serverless_matching_engi.Types.{Order, Trade, Quantity}
use serverless_matching_engi.Engine.{
  Env, MatchResult, halt, advance, reduce, make_trade, filled_state, filled_resting, run,
  match_order, effective_tif, walk, untouched,
}
use serverless_matching_engi.Engine.Walk.{Visited, walk_induction, match_order_cases, apply_tif_lem}

-- The quantity of all trades so far.
abbrev pub traded : MatchResult → Quantity
traded s = sum_by (λ t. t.quantity) s.trades

-- The quantity that the resting orders have left.
abbrev pub depth : List Order → Quantity
depth = sum_by (λ r. r.remaining)

module _ (env : Env) (s : MatchResult) (r : Order) where
  pub traded-filled_state :
      (traded (filled_state env s r) + (filled_state env s r).incoming.remaining
        ≡ traded s + s.incoming.remaining)
      × (traded (filled_state env s r) + (filled_resting env s r).remaining
          ≡ traded s + r.remaining)
  unfolding filled_state filled_resting reduce make_trade
  traded-filled_state = ground (
    arith,
    sum_by-append {0} (λ (t : Trade). t.quantity) s.trades
        (make_trade env (length s.trades) s.incoming r ∷ []),
  )

-- What a part of the program owes: both sides give exactly what the trades take.
abbrev IsBalanced : MatchResult → List Order → MatchResult → List Order → Type 0
IsBalanced s book t book' =
    (traded t + t.incoming.remaining ≡ traded s + s.incoming.remaining)
    × (traded t + depth book' ≡ traded s + depth book)

round-IsBalanced_halt :
    (env : Env) (s : MatchResult) (r : Order) (s' : MatchResult) (r' : Order) (rest : List Order)
    → Visited env s r (halt s' r')
    → IsBalanced s (r ∷ rest) s' (r' ∷ rest)
round-IsBalanced_halt env s r s' r' rest (Visited.done e) = (refl, refl)
round-IsBalanced_halt env s r s' r' rest (Visited.apart e) = (refl, refl)
round-IsBalanced_halt env s r s' r' rest (Visited.taker p m u) = (refl, refl)
round-IsBalanced_halt env s r s' r' rest (Visited.both p m u) = (refl, refl)

round-IsBalanced_advance :
    (env : Env) (s : MatchResult) (r : Order) (s' t : MatchResult) (r' : Order)
    (rest rest' : List Order)
    → Visited env s r (advance s' r')
    → IsBalanced s' rest t rest'
    → IsBalanced s (r ∷ rest) t (r' ∷ rest')
round-IsBalanced_advance env s r s' t r' rest rest' (Visited.maker p m u) h = omega arith
round-IsBalanced_advance env s r s' t r' rest rest' (Visited.traded p m u) h =
    omega (arith, traded-filled_state env s r)

walk-IsBalanced :
    (env : Env) (s : MatchResult) (book : List Order)
    → IsBalanced s book (walk env s book).0 (walk env s book).1
walk-IsBalanced env =
    walk_induction env IsBalanced (λ s. (refl, refl)) (round-IsBalanced_halt env)
      (round-IsBalanced_advance env)

run-IsBalanced :
    (env : Env) (o : Order) (book : List Order)
    → IsBalanced (untouched o) book (run env o book).0 (run env o book).1
unfolding run
run-IsBalanced env o book =
    let w = walk env (untouched o) book in
    rw ((apply_tif_lem (effective_tif o) w.0).0, (apply_tif_lem (effective_tif o) w.0).3)
      (walk-IsBalanced env (untouched o) book)

-- Whatever the kinds, modes and prices: the quantity of the trades and what is left of the
-- incoming order make up what it came with, and the quantity of the trades and what is left in the
-- book make up what the book held.
pub match_order_conserves :
    (env : Env) (incoming : Order) (book : List Order)
    → let (result, book') = match_order env incoming book in
      (traded result + result.incoming.remaining ≡ incoming.remaining)
      × (traded result + depth book' ≡ depth book)
match_order_conserves env incoming book =
    match_order_cases
      (λ w.
        (traded w.0 + w.0.incoming.remaining ≡ incoming.remaining)
        × (traded w.0 + depth w.1 ≡ depth book))
      env incoming book (λ _ _. (omega arith, omega arith))
      (λ _. omega (arith, run-IsBalanced env incoming book))
