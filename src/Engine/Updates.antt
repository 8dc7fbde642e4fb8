-- ===== src/Engine/Updates.antt =====
-- The reported updates against the book that the call leaves.
use serverless_matching_engi.Prelude.{
  ◌≡◌, refl, sym, ◌∙◌, ap, List, [], ◌∷◌, ◌++◌, append_assoc, append-nil, length, drop,
}
use serverless_matching_engi.Types.{Order}
use serverless_matching_engi.Engine.{
  Env, MatchResult, halt, advance, filled_state, run, match_order, effective_tif, walk, untouched,
}
use serverless_matching_engi.Engine.Walk.{Visited, walk_induction, match_order_cases, apply_tif_lem}

-- A part of the walk reports the orders at the front of its book, as it leaves them.
abbrev Reports : MatchResult → List Order → MatchResult → List Order → Type 0
Reports s book t book' =
    (updates : List Order) × (t.book_updates ≡ s.book_updates ++ updates)
    × (book' ≡ updates ++ drop (length updates) book)

end-Reports : (s : MatchResult) → Reports s [] s []
end-Reports s = ([], sym (append-nil s.book_updates), refl)

halt-Reports :
    (env : Env) (s : MatchResult) (r : Order) (s' : MatchResult) (r' : Order) (rest : List Order)
    → Visited env s r (halt s' r')
    → Reports s (r ∷ rest) s' (r' ∷ rest)
halt-Reports env s r s' r' rest (Visited.done e) = ([], sym (append-nil s.book_updates), refl)
halt-Reports env s r s' r' rest (Visited.apart e) = ([], sym (append-nil s.book_updates), refl)
halt-Reports env s r s' r' rest (Visited.taker p m u) = ([], sym (append-nil s.book_updates), refl)
halt-Reports env s r s' r' rest (Visited.both p m u) = (r' ∷ [], refl, refl)

-- One more order reported in front.
push-Reports :
    (s s' t : MatchResult) (r r' : Order) (rest rest' : List Order)
    → s'.book_updates ≡ s.book_updates ++ r' ∷ []
    → Reports s' rest t rest'
    → Reports s (r ∷ rest) t (r' ∷ rest')
push-Reports s s' t r r' rest rest' e (updates, f, g) = (
  r' ∷ updates,
  f ∙ ap (λ xs. xs ++ updates) e ∙ append_assoc s.book_updates (r' ∷ []) updates,
  ap (◌∷◌ r') g,
)

advance-Reports :
    (env : Env) (s : MatchResult) (r : Order) (s' t : MatchResult) (r' : Order)
    (rest rest' : List Order)
    → Visited env s r (advance s' r')
    → Reports s' rest t rest'
    → Reports s (r ∷ rest) t (r' ∷ rest')
advance-Reports env s r s' t r' rest rest' (Visited.maker p m u) ih =
    push-Reports s s' t r r' rest rest' refl ih
advance-Reports env s r s' t r' rest rest' (Visited.traded p m u) ih =
    push-Reports s s' t r r' rest rest' (unfold filled_state in refl) ih

walk-Reports :
    (env : Env) (s : MatchResult) (book : List Order)
    → Reports s book (walk env s book).0 (walk env s book).1
walk-Reports env = walk_induction env Reports end-Reports (halt-Reports env) (advance-Reports env)

-- `book_updates` is what became of the orders at the front of the book, in its order, and the rest
-- of the book is as it was: applying the updates to the book gives the book that the call leaves.
pub match_order-book_updates :
    (env : Env) (incoming : Order) (book : List Order)
    → let (result, book') = match_order env incoming book in
      book' ≡ result.book_updates ++ drop (length result.book_updates) book
match_order-book_updates env incoming book =
    match_order_cases (λ w. w.1 ≡ w.0.book_updates ++ drop (length w.0.book_updates) book) env
      incoming book (λ _ _. refl) (λ _. run-updates (walk-Reports env (untouched incoming) book))
  where
    run-updates :
        Reports
          (untouched incoming)
          book
          (walk env (untouched incoming) book).0
          (walk env (untouched incoming) book).1
        → let (result, book') = run env incoming book in
          book' ≡ result.book_updates ++ drop (length result.book_updates) book
    run-updates (updates, f, g) =
        unfold run in
        rw ((apply_tif_lem (effective_tif incoming) (walk env (untouched incoming) book).0).1, f) g
