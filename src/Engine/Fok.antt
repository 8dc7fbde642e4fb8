-- ===== src/Engine/Fok.antt =====
-- How much trades, against the count that the FOK check makes; and fill-or-kill.
use serverless_matching_engi.Prelude.{
  ◌+◌, ◌-◌, ◌≤◌, ◌<◌, min, ◌≡◌, refl, ◌⊎◌, inl, inr, List, [], ◌∷◌, true, false, Option, some,
  arith, ap, All, str_eq,
}
use serverless_matching_engi.Prelude.Int.{◌≤ℤ◌}
use serverless_matching_engi.Types.{
  Order, OrderStatus, Side, TimeInForce, Decimal, SelfTradePreventionMode,
}
use serverless_matching_engi.Engine.{
  Env, MatchResult, halt, advance, reduce, filled_state, run, match_order, effective_tif, walk,
  untouched, price_matches, available, apply_tif, is_fok,
}
use serverless_matching_engi.Engine.Walk.{Visited, walk_induction, match_order_cases, apply_tif_lem}
use serverless_matching_engi.Engine.Conservation.{traded, match_order_conserves}

-- `r` stands before `q` for an incoming order of the given side: asks from the lowest price up,
-- bids from the highest down, each with a price.
abbrev pub Before : Side → Option Decimal → Option Decimal → Type 0
Before Side.buy (some p) (some q) = p ≤ℤ q
Before Side.sell (some p) (some q) = q ≤ℤ p
Before _ _ _ = ⊥

-- The book as the caller must sort it, for an incoming order of the side.
abbrev pub IsSorted : Side → List Order → Type 0
IsSorted side [] = Unit
IsSorted side (r ∷ rest) = All (λ q. Before side r.price q.price) rest × IsSorted side rest

-- The incoming order meets no order of its own user, or does not mind.
abbrev pub NoneOwn : Order → List Order → Type 0
NoneOwn o book =
    All (λ r. (str_eq o.user_id r.user_id ≡ false) ⊎ (o.stp_mode ≡ SelfTradePreventionMode.none))
      book

-- In a sorted book, behind an order that does not match none does.
apart-stays :
    (o r q : Order)
    → Before o.side r.price q.price
    → price_matches o r ≡ false
    → price_matches o q ≡ false
unfolding price_matches
apart-stays o r q b e = ground arith

available-apart :
    (o r : Order) (rest : List Order)
    → All (λ q. Before o.side r.price q.price) rest
    → price_matches o r ≡ false
    → available o rest ≡ 0
unfolding available
available-apart o r [] b e = refl
available-apart o r (q ∷ rest) b e =
    ground (arith, apart-stays o r q b.0 e, available-apart o r rest b.1 e)

available-congr :
    (o p : Order) (book : List Order)
    → price_matches o ≡ price_matches p
    → available o book ≡ available p book
unfolding available
available-congr o p [] e = refl
available-congr o p (r ∷ rest) e = rw (ap (λ m. m r) e, available-congr o p rest e)

-- What a part of the walk takes from a sorted book in which nothing is prevented: all that matches,
-- or all that is wanted.
abbrev Takes : MatchResult → List Order → MatchResult → List Order → Type 0
Takes s book t book' =
    IsSorted s.incoming.side book
    → NoneOwn s.incoming book
    → (s.incoming.remaining ≡ 0 → s.incoming.status ≡ OrderStatus.filled)
    → (t.incoming.remaining ≡ s.incoming.remaining - available s.incoming book)
      × (t.incoming.remaining ≡ 0 → t.incoming.status ≡ OrderStatus.filled)

end-Takes : (s : MatchResult) → Takes s [] s []
unfolding available
end-Takes s sorted own h = (omega arith, h)

halt-Takes :
    (env : Env) (s : MatchResult) (r : Order) (s' : MatchResult) (r' : Order) (rest : List Order)
    → Visited env s r (halt s' r')
    → Takes s (r ∷ rest) s' (r' ∷ rest)
unfolding available
halt-Takes env s r s' r' rest (Visited.done e) sorted own h = (omega arith, h)
halt-Takes env s r s' r' rest (Visited.apart e) sorted own h =
    (rw e (omega (arith, available-apart s.incoming r rest sorted.0 e)), h)
halt-Takes env s r s' r' rest (Visited.taker p m u) sorted own h = absurd (ground (arith, own.0))
halt-Takes env s r s' r' rest (Visited.both p m u) sorted own h = absurd (ground (arith, own.0))

fill-Takes :
    (env : Env) (s : MatchResult) (r : Order)
    → 0 < s.incoming.remaining
    → ((filled_state env s r).incoming.remaining ≡ s.incoming.remaining - r.remaining)
      × ((filled_state env s r).incoming.remaining ≡ 0
          → (filled_state env s r).incoming.status ≡ OrderStatus.filled)
      × (price_matches (filled_state env s r).incoming ≡ price_matches s.incoming)
unfolding filled_state reduce price_matches
fill-Takes env s r p = (omega arith, (λ h. ground arith), refl)

fill-NoneOwn :
    (env : Env) (s : MatchResult) (r : Order) (rest : List Order)
    → IsSorted s.incoming.side rest
    → NoneOwn s.incoming rest
    → IsSorted (filled_state env s r).incoming.side rest
      × NoneOwn (filled_state env s r).incoming rest
unfolding filled_state reduce
fill-NoneOwn env s r rest sorted own = (sorted, own)

advance-Takes :
    (env : Env) (s : MatchResult) (r : Order) (s' t : MatchResult) (r' : Order)
    (rest rest' : List Order)
    → Visited env s r (advance s' r')
    → Takes s' rest t rest'
    → Takes s (r ∷ rest) t (r' ∷ rest')
unfolding available
advance-Takes env s r s' t r' rest rest' (Visited.maker p m u) ih sorted own h =
    absurd (ground (arith, own.0))
advance-Takes env s r s' t r' rest rest' (Visited.traded p m u) ih sorted own h =
    let f = fill-Takes env s r p in
    let kept = fill-NoneOwn env s r rest sorted.1 own.1 in
    let e = available-congr (filled_state env s r).incoming s.incoming rest f.2 in
    let later = ih kept.0 kept.1 f.1 in (rw m (omega (arith, later.0, f.0, e)), later.1)

walk-Takes :
    (env : Env) (s : MatchResult) (book : List Order)
    → Takes s book (walk env s book).0 (walk env s book).1
walk-Takes env = walk_induction env Takes end-Takes (halt-Takes env) (advance-Takes env)

apply_tif-filled :
    (tif : TimeInForce) (s : MatchResult)
    → (s.incoming.remaining ≡ 0 → s.incoming.status ≡ OrderStatus.filled)
    → (apply_tif tif s).incoming.remaining ≡ 0
    → (apply_tif tif s).incoming.status ≡ OrderStatus.filled
unfolding apply_tif
apply_tif-filled tif s h e = ground (arith, h)

module _ (env : Env) (incoming : Order) (book : List Order) (sorted : IsSorted incoming.side book)
    (own : NoneOwn incoming book) (open_order : 0 < incoming.remaining) where
  run-Takes :
      ((run env incoming book).0.incoming.remaining ≡ incoming.remaining - available incoming book)
      × ((run env incoming book).0.incoming.remaining ≡ 0
          → (run env incoming book).0.incoming.status ≡ OrderStatus.filled)
  unfolding run
  run-Takes =
      let w = (walk env (untouched incoming) book).0 in
      let took = walk-Takes env (untouched incoming) book sorted own (λ e. absurd (omega arith)) in
      (
        rw (apply_tif_lem (effective_tif incoming) w).3 took.0,
        apply_tif-filled (effective_tif incoming) w took.1,
      )

  -- Against a sorted book in which the order meets none of its own user's orders (or does not mind
  -- them), an order that is not fill-or-kill trades the lesser of what it wants and what rests at
  -- matching prices; so the walk, which stops at the first price that does not match, misses none.
  pub match_order-min :
      is_fok incoming.tif ≡ false
      → traded (match_order env incoming book).0 ≡ min incoming.remaining (available incoming book)
  match_order-min k =
      match_order_cases
        (λ w.
          (traded w.0 + w.0.incoming.remaining ≡ incoming.remaining)
          → traded w.0 ≡ min incoming.remaining (available incoming book))
        env incoming book (λ f _ _. cc (f, k)) (λ _ c. omega (arith, run-Takes.0))
        (match_order_conserves env incoming book).0

  -- Fill or kill, on the same terms: the order trades in full and is `filled`, or it is `cancelled`
  -- with no trade and no change to the book, which happens exactly when too little rests at
  -- matching prices.
  pub match_order-fok :
      is_fok incoming.tif ≡ true
      → let (result, book') = match_order env incoming book in
        ((incoming.remaining ≤ available incoming book)
          × (traded result ≡ incoming.remaining)
          × (result.incoming.remaining ≡ 0)
          × (result.incoming.status ≡ OrderStatus.filled))
        ⊎ ((available incoming book < incoming.remaining)
            × (result.trades ≡ [])
            × (book' ≡ book)
            × (result.incoming.status ≡ OrderStatus.cancelled))
  match_order-fok k =
      match_order_cases
        (λ w.
          (traded w.0 + w.0.incoming.remaining ≡ incoming.remaining)
          → ((incoming.remaining ≤ available incoming book)
              × (traded w.0 ≡ incoming.remaining)
              × (w.0.incoming.remaining ≡ 0)
              × (w.0.incoming.status ≡ OrderStatus.filled))
            ⊎ ((available incoming book < incoming.remaining)
                × (w.0.trades ≡ [])
                × (w.1 ≡ book)
                × (w.0.incoming.status ≡ OrderStatus.cancelled)))
        env incoming book (λ _ short _. inr (short, refl, refl, refl))
        (λ enough c.
          let none_left : (run env incoming book).0.incoming.remaining ≡ 0 =
            omega (arith, run-Takes.0, enough k) in
          inl (enough k, omega arith, none_left, run-Takes.1 none_left))
        (match_order_conserves env incoming book).0
