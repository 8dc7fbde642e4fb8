-- ===== src/Engine/Walk.antt =====
-- The ways in which a round of the loop of match_order ends, and induction over the loop.
use serverless_matching_engi.Prelude.{
  ◌<◌, List, [], ◌∷◌, ◌++◌, ◌≡◌, refl, ◌⊎◌, inl, inr, true, false, str_eq, Bool-cases, ◌==◌, ◌≤◌,
  ltb, arith,
}
use serverless_matching_engi.Types.{Order, SelfTradePreventionMode, TimeInForce}
use serverless_matching_engi.Engine.{
  Env, MatchResult, Outcome, halt, advance, visit, prevent, walk, cancel, price_matches,
  filled_state, filled_resting, available, untouched, run, match_order, apply_tif, is_fok,
}

-- How a round can end at the resting order `r`, with what it tested on the way.
pub data Visited (env : Env) (s : MatchResult) (r : Order) : Outcome → Type 0 where
  done : s.incoming.remaining ≡ 0 → Visited env s r (halt s r)
  apart : price_matches s.incoming r ≡ false → Visited env s r (halt s r)
  taker :
      0 < s.incoming.remaining
      → s.incoming.stp_mode ≡ SelfTradePreventionMode.cancel_taker
      → str_eq s.incoming.user_id r.user_id ≡ true
      → Visited env s r (
          halt
            (record s {
              incoming = cancel s.incoming;
              stp_cancelled = s.stp_cancelled ++ cancel s.incoming ∷ [];
            })
            r)
  maker :
      0 < s.incoming.remaining
      → s.incoming.stp_mode ≡ SelfTradePreventionMode.cancel_maker
      → str_eq s.incoming.user_id r.user_id ≡ true
      → Visited env s r (
          advance
            (record s {
              stp_cancelled = s.stp_cancelled ++ cancel r ∷ [];
              book_updates = s.book_updates ++ cancel r ∷ [];
            })
            (cancel r))
  both :
      0 < s.incoming.remaining
      → s.incoming.stp_mode ≡ SelfTradePreventionMode.cancel_both
      → str_eq s.incoming.user_id r.user_id ≡ true
      → Visited env s r (
          halt
            (record s {
              incoming = cancel s.incoming;
              stp_cancelled = s.stp_cancelled ++ (cancel s.incoming ∷ cancel r ∷ []);
              book_updates = s.book_updates ++ cancel r ∷ [];
            })
            (cancel r))
  traded :
      0 < s.incoming.remaining
      → price_matches s.incoming r ≡ true
      → (str_eq s.incoming.user_id r.user_id ≡ false)
        ⊎ (s.incoming.stp_mode ≡ SelfTradePreventionMode.none)
      → Visited env s r (advance (filled_state env s r) (filled_resting env s r))

module _ (env : Env) (s : MatchResult) (r : Order) where
  prevent-Visited :
      (mode : SelfTradePreventionMode)
      → s.incoming.stp_mode ≡ mode
      → 0 < s.incoming.remaining
      → price_matches s.incoming r ≡ true
      → str_eq s.incoming.user_id r.user_id ≡ true
      → Visited env s r (prevent mode env s r)
  unfolding prevent
  prevent-Visited SelfTradePreventionMode.none m h p u = Visited.traded h p (inr m)
  prevent-Visited SelfTradePreventionMode.cancel_taker m h p u = Visited.taker h m u
  prevent-Visited SelfTradePreventionMode.cancel_maker m h p u = Visited.maker h m u
  prevent-Visited SelfTradePreventionMode.cancel_both m h p u = Visited.both h m u

  matched-Visited :
      0 < s.incoming.remaining
      → price_matches s.incoming r ≡ true
      → s.incoming.remaining == 0 ≡ false
      → Visited env s r (visit env s r)
  unfolding visit
  matched-Visited h p e = elim (Bool-cases (str_eq s.incoming.user_id r.user_id)) [
    | inl u ↦ rw (e, p, u) (prevent-Visited s.incoming.stp_mode refl h p u)
    | inr u ↦ rw (e, p, u) (Visited.traded h p (inl u))
  ]

  pub visit-Visited : Visited env s r (visit env s r)
  unfolding visit
  visit-Visited = elim (Bool-cases (s.incoming.remaining == 0)) [
    | inl e ↦ rw e (Visited.done (ground arith))
    | inr e ↦ elim (Bool-cases (price_matches s.incoming r)) [
      | inl p ↦ matched-Visited (ground arith) p e
      | inr p ↦ rw (e, p) (Visited.apart p)
    ]
  ]

module _ {ℓ} (env : Env) (Q : MatchResult → List Order → MatchResult → List Order → Type ℓ) where
  -- Induction over the rounds: at the end of the book, at a break, at a continue.
  pub walk_induction :
      ((s : MatchResult) → Q s [] s [])
      → ((s : MatchResult) (r : Order) (s' : MatchResult) (r' : Order) (rest : List Order)
          → Visited env s r (halt s' r')
          → Q s (r ∷ rest) s' (r' ∷ rest))
      → ((s : MatchResult) (r : Order) (s' t : MatchResult) (r' : Order) (rest rest' : List Order)
          → Visited env s r (advance s' r')
          → Q s' rest t rest'
          → Q s (r ∷ rest) t (r' ∷ rest'))
      → (s : MatchResult) (book : List Order) → Q s book (walk env s book).0 (walk env s book).1
  unfolding walk
  walk_induction base stop go s [] = base s
  walk_induction base stop go s (r ∷ rest) =
      round (visit env s r) refl (visit-Visited env s r) (λ s'. walk_induction base stop go s' rest)
    where
      round :
          (o : Outcome)
          → visit env s r ≡ o
          → Visited env s r (visit env s r)
          → ((s' : MatchResult) → Q s' rest (walk env s' rest).0 (walk env s' rest).1)
          → Q s (r ∷ rest) (walk env s (r ∷ rest)).0 (walk env s (r ∷ rest)).1
      round (halt s' r') e v ih = rw (e, walk) (stop s r s' r' rest (rw e at v))
      round (advance s' r') e v ih = rw (e, walk) (go s r s' _ r' rest _ (rw e at v) (ih s'))
      -- An invariant of the state alone.

module _ {ℓ} (env : Env) (P : MatchResult → Type ℓ) where
  pub walk_invariant :
      ((s : MatchResult) (r : Order) (s' : MatchResult) (r' : Order)
        → P s
        → Visited env s r (halt s' r')
        → P s')
      → ((s : MatchResult) (r : Order) (s' : MatchResult) (r' : Order)
          → P s
          → Visited env s r (advance s' r')
          → P s')
      → (s : MatchResult) (book : List Order) → P s
      → P (walk env s book).0
  walk_invariant stop go =
      walk_induction env (λ s _ t _. P s → P t) (λ s p. p)
        (λ s r s' r' rest v p. stop s r s' r' p v)
        (λ s r s' t r' rest rest' v ih p. ih (go s r s' r' p v))

-- The two ways through match_order: refused by the FOK check, or run.
pub match_order_cases {ℓ} :
    (P : MatchResult × List Order → Type ℓ) (env : Env) (incoming : Order) (book : List Order)
    → (is_fok incoming.tif ≡ true
        → available incoming book < incoming.remaining
        → P (untouched (cancel incoming), book))
    → ((is_fok incoming.tif ≡ true → incoming.remaining ≤ available incoming book)
        → P (run env incoming book))
    → P (match_order env incoming book)
unfolding match_order
match_order_cases P env incoming book refused runs = elim (Bool-cases (is_fok incoming.tif)) [
  | inl e ↦ elim (Bool-cases (ltb (available incoming book) incoming.remaining)) [
    | inl short ↦ rw (e, short) (refused e (ground arith))
    | inr enough ↦ rw (e, enough) (runs (λ _. ground arith))
  ]
  | inr e ↦ rw e (runs (λ h. cc (e, h)))
]

-- The rules after the loop change the status alone.
pub apply_tif_lem :
    (tif : TimeInForce) (s : MatchResult)
    → ((apply_tif tif s).trades ≡ s.trades)
      × ((apply_tif tif s).book_updates ≡ s.book_updates)
      × ((apply_tif tif s).stp_cancelled ≡ s.stp_cancelled)
      × ((apply_tif tif s).incoming.remaining ≡ s.incoming.remaining)
unfolding apply_tif
apply_tif_lem tif s = ground arith
