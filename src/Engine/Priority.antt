-- ===== src/Engine/Priority.antt =====
-- Price-time priority: the order in which the book is consumed.
use serverless_matching_engi.Prelude.{
  ◌≤◌, ◌≡◌, refl, sym, ◌⊎◌, inl, inr, List, [], ◌∷◌, Bool, false, arith, subst,
}
use serverless_matching_engi.Types.{Order, OrderStatus, TimeInForce}
use serverless_matching_engi.Engine.{
  Env, MatchResult, halt, advance, reduce, filled_state, filled_resting, run, match_order,
  effective_tif, walk, untouched, price_matches, apply_tif,
}
use serverless_matching_engi.Engine.Walk.{Visited, walk_induction, match_order_cases}

-- The incoming order can take no more: it is filled, or it was cancelled.
abbrev pub Ended : Order → Type 0
Ended o = (o.remaining ≡ 0) ⊎ (o.status ≡ OrderStatus.cancelled)

-- The same order, whatever has become of it.
abbrev pub SameOrder : Order → Order → Type 0
SameOrder r r' =
    (r'.id ≡ r.id)
    × (r'.user_id ≡ r.user_id)
    × (r'.side ≡ r.side)
    × (r'.price ≡ r.price)
    × (r'.quantity ≡ r.quantity)

-- A resting order that the walk went past: all of it traded, or it was cancelled as it stood.
abbrev pub Consumed : Order → Order → Type 0
Consumed r r' =
    SameOrder r r'
    × (((r'.remaining ≡ 0) × (r'.status ≡ OrderStatus.filled))
        ⊎ ((r'.remaining ≡ r.remaining) × (r'.status ≡ OrderStatus.cancelled)))

abbrev pub NoMatch : (Order → Bool) → List Order → Type 0
NoMatch matches [] = Unit
NoMatch matches (r ∷ rest) = matches r ≡ false

-- The book before and after: first orders that were consumed; then at most one that was reduced or
-- cancelled, only if that ended the incoming order; all others as they were, and the first of them
-- at no matching price, unless the incoming order has ended.
pub data Swept (matches : Order → Bool) (incoming : Order) : List Order → List Order → Type 0 where
  stop :
      {book book' : List Order}
      → book' ≡ book
      → Ended incoming ⊎ NoMatch matches book
      → Swept matches incoming book book'
  last :
      {r r' : Order} {rest rest' : List Order}
      → SameOrder r r'
      → r'.remaining ≤ r.remaining
      → rest' ≡ rest
      → Ended incoming
      → Swept matches incoming (r ∷ rest) (r' ∷ rest')
  past :
      {r r' : Order} {rest rest' : List Order}
      → Consumed r r'
      → Swept matches incoming rest rest'
      → Swept matches incoming (r ∷ rest) (r' ∷ rest')

Swept-mono :
    {matches : Order → Bool} {o p : Order} {book book' : List Order}
    → (Ended o → Ended p)
    → Swept matches o book book'
    → Swept matches p book book'
Swept-mono f (Swept.stop e (inl h)) = Swept.stop e (inl (f h))
Swept-mono f (Swept.stop e (inr h)) = Swept.stop e (inr h)
Swept-mono f (Swept.last s l e h) = Swept.last s l e (f h)
Swept-mono f (Swept.past c s) = Swept.past c (Swept-mono f s)

module _ (env : Env) (s : MatchResult) (r : Order) where
  -- A fill uses up the resting order, or else the incoming one.
  fill_uses_up :
      Consumed r (filled_resting env s r) ⊎ ((filled_state env s r).incoming.remaining ≡ 0)
  unfolding filled_state filled_resting reduce
  fill_uses_up = ground arith

  fill-SameOrder :
      SameOrder r (filled_resting env s r)
      × ((filled_resting env s r).remaining ≤ r.remaining)
      × (price_matches (filled_state env s r).incoming ≡ price_matches s.incoming)
  unfolding filled_state filled_resting reduce price_matches
  fill-SameOrder = ((refl, refl, refl, refl, refl), omega arith, refl)

-- What a part of the walk does, and that a filled order walks no further.
abbrev Sweeps : MatchResult → List Order → MatchResult → List Order → Type 0
Sweeps s book t book' =
    Swept (price_matches s.incoming) t.incoming book book'
    × (s.incoming.remaining ≡ 0 → (t ≡ s) × (book' ≡ book))

round-Sweeps_end : (s : MatchResult) → Sweeps s [] s []
round-Sweeps_end s = (Swept.stop refl (inr tt), λ _. (refl, refl))

round-Sweeps_halt :
    (env : Env) (s : MatchResult) (r : Order) (s' : MatchResult) (r' : Order) (rest : List Order)
    → Visited env s r (halt s' r')
    → Sweeps s (r ∷ rest) s' (r' ∷ rest)
round-Sweeps_halt env s r s' r' rest (Visited.done e) =
    (Swept.stop refl (inl (inl e)), λ _. (refl, refl))
round-Sweeps_halt env s r s' r' rest (Visited.apart e) =
    (Swept.stop refl (inr e), λ _. (refl, refl))
round-Sweeps_halt env s r s' r' rest (Visited.taker p m u) =
    (Swept.stop refl (inl (inr refl)), λ h. absurd (omega arith))
round-Sweeps_halt env s r s' r' rest (Visited.both p m u) = (
  Swept.last (refl, refl, refl, refl, refl) (omega arith) refl (inr refl),
  λ h. absurd (omega arith),
)

after_fill :
    (env : Env) (s : MatchResult) (r : Order) (t : MatchResult) (rest rest' : List Order)
    → Sweeps (filled_state env s r) rest t rest'
    → Swept (price_matches s.incoming) t.incoming (r ∷ rest) (filled_resting env s r ∷ rest')
after_fill env s r t rest rest' ih = elim (fill_uses_up env s r) [
  | inl consumed ↦
      Swept.past consumed
        (subst (λ m. Swept m t.incoming rest rest') (fill-SameOrder env s r).2 ih.0)
  | inr ended ↦
      Swept.last (fill-SameOrder env s r).0 (fill-SameOrder env s r).1 (ih.1 ended).1
        (inl (subst (λ x. x.incoming.remaining ≡ 0) (sym (ih.1 ended).0) ended))
]

round-Sweeps_advance :
    (env : Env) (s : MatchResult) (r : Order) (s' t : MatchResult) (r' : Order)
    (rest rest' : List Order)
    → Visited env s r (advance s' r')
    → Sweeps s' rest t rest'
    → Sweeps s (r ∷ rest) t (r' ∷ rest')
round-Sweeps_advance env s r s' t r' rest rest' (Visited.maker p m u) ih =
    (Swept.past ((refl, refl, refl, refl, refl), inr (refl, refl)) ih.0, λ h. absurd (omega arith))
round-Sweeps_advance env s r s' t r' rest rest' (Visited.traded p m u) ih =
    (after_fill env s r t rest rest' ih, λ h. absurd (omega arith))

walk-Sweeps :
    (env : Env) (s : MatchResult) (book : List Order)
    → Sweeps s book (walk env s book).0 (walk env s book).1
walk-Sweeps env =
    walk_induction env Sweeps round-Sweeps_end (round-Sweeps_halt env) (round-Sweeps_advance env)

-- The rules after the loop leave a filled or cancelled order filled or cancelled.
apply_tif-Ended :
    (tif : TimeInForce) (s : MatchResult) → Ended s.incoming → Ended (apply_tif tif s).incoming
unfolding apply_tif
apply_tif-Ended tif s h = ground arith

-- Price-time priority, and that the walk is exhaustive. match_order consumes the book from the
-- front: the orders before some point are filled or were cancelled as they stood; at most one
-- order there is reduced or cancelled, and only if the incoming order is then filled or cancelled;
-- every later order is untouched, and the incoming order stops short of a matching one only when
-- it is filled or cancelled.
pub match_order-Swept :
    (env : Env) (incoming : Order) (book : List Order)
    → let (result, book') = match_order env incoming book in
      Swept (price_matches incoming) result.incoming book book'
match_order-Swept env incoming book =
    match_order_cases (λ w. Swept (price_matches incoming) w.0.incoming book w.1) env incoming book
      (λ _ _. Swept.stop refl (inl (inr refl))) (λ _. run-Swept)
  where
    run-Swept :
        Swept
          (price_matches incoming)
          (run env incoming book).0.incoming
          book
          (run env incoming book).1
    run-Swept =
        unfold run in
        Swept-mono (apply_tif-Ended (effective_tif incoming) (walk env (untouched incoming) book).0)
          (walk-Sweeps env (untouched incoming) book).0
