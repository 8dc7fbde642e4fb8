-- ===== src/Cache/Script/Rounds.antt =====
-- The ways in which a round of the script's loop ends, and induction over the loop.
use serverless_matching_engi.Prelude.{
  ℕ, ◌<◌, String, List, [], ◌∷◌, ◌≡◌, refl, ◌⊎◌, inl, inr, true, false, str_eq, Bool-cases, ◌==◌,
  arith,
}
use serverless_matching_engi.Types.{SelfTradePreventionMode}
use serverless_matching_engi.Cache.Valkey.{Valkey}
use serverless_matching_engi.Cache.Script.{
  Keys, Argv, Resting, ScriptState, Round, compatible, combined, is_consumed, rkey, trade_with,
  stop_taker, prevent, meet, visit, hmget, match_loop,
}

module _ (v : Valkey) (exponent_form : ℕ → String) where
  open v use {Db}

  -- How a round can end at the id `rid`.
  pub data Visited (k : Keys) (a : Argv) (rid : String) (s : ScriptState v exponent_form)
      : Round v exponent_form → Type 0 where
    done : s.remaining_i ≡ 0 → Visited k a rid s (Round.halt s)
    ghost : Visited k a rid s (Round.next s)
    apart : (r : Resting) → compatible a r ≡ false → Visited k a rid s (Round.halt s)
    maker : (db : Db) → Visited k a rid s (Round.next (record s { db = db }))
    stopped :
        (db : Db)
        → 0 < s.remaining_i
        → Visited k a rid s (Round.halt (stop_taker v exponent_form (record s { db = db })))
    traded :
        (r : Resting)
        → 0 < s.remaining_i
        → is_consumed r ≡ false
        → compatible a r ≡ true
        → (str_eq a.user_id r.user_id ≡ false)
          ⊎ (combined a.stp_mode r.stp ≡ SelfTradePreventionMode.none)
        → Visited k a rid s (Round.next (trade_with v exponent_form k a rid r s))

  module _ (k : Keys) (a : Argv) (rid : String) (r : Resting)
      (s : ScriptState v exponent_form) where
    prevent-Visited :
        (mode : SelfTradePreventionMode)
        → combined a.stp_mode r.stp ≡ mode
        → 0 < s.remaining_i
        → is_consumed r ≡ false
        → compatible a r ≡ true
        → Visited k a rid s (prevent v exponent_form mode k a rid r s)
    unfolding prevent
    prevent-Visited SelfTradePreventionMode.none m h c p = Visited.traded r h c p (inr m)
    prevent-Visited SelfTradePreventionMode.cancel_maker m h c p = Visited.maker _
    prevent-Visited SelfTradePreventionMode.cancel_taker m h c p = Visited.stopped s.db h
    prevent-Visited SelfTradePreventionMode.cancel_both m h c p = Visited.stopped _ h

    matched-Visited :
        0 < s.remaining_i
        → is_consumed r ≡ false
        → compatible a r ≡ true
        → Visited k a rid s (meet v exponent_form k a rid r s)
    unfolding meet
    matched-Visited h c p = elim (Bool-cases (str_eq a.user_id r.user_id)) [
      | inl u ↦ rw (c, p, u) (prevent-Visited (combined a.stp_mode r.stp) refl h c p)
      | inr u ↦ rw (c, p, u) (Visited.traded r h c p (inl u))
    ]

    meet-Visited : 0 < s.remaining_i → Visited k a rid s (meet v exponent_form k a rid r s)
    unfolding meet
    meet-Visited h = elim (Bool-cases (is_consumed r)) [
      | inl c ↦ rw c Visited.ghost
      | inr c ↦ elim (Bool-cases (compatible a r)) [
        | inl p ↦ matched-Visited h c p
        | inr p ↦ rw (c, p) (Visited.apart r p)
      ]
    ]

  pub visit-Visited :
      (k : Keys) (a : Argv) (rid : String) (s : ScriptState v exponent_form)
      → Visited k a rid s (visit v exponent_form k a rid s)
  unfolding visit
  visit-Visited k a rid s = elim (Bool-cases (s.remaining_i == 0)) [
    | inl e ↦ rw e (Visited.done (ground arith))
    | inr e ↦ rw e (
        meet-Visited k a rid (hmget v exponent_form (rkey v exponent_form rid) s.db) s
          (ground arith))
  ]

  -- What each round keeps, the loop keeps.
  pub match_loop_invariant {ℓ} :
      (k : Keys) (a : Argv) (P : ScriptState v exponent_form → Type ℓ)
      → ((rid : String) (s s' : ScriptState v exponent_form)
          → P s
          → Visited k a rid s (Round.halt s')
          → P s')
      → ((rid : String) (s s' : ScriptState v exponent_form)
          → P s
          → Visited k a rid s (Round.next s')
          → P s')
      → (rids : List String) (s : ScriptState v exponent_form) → P s
      → P (match_loop v exponent_form k a rids s)
  unfolding match_loop
  match_loop_invariant k a P stop go [] s p = p
  match_loop_invariant k a P stop go (rid ∷ rids) s p =
      round (visit v exponent_form k a rid s) refl (visit-Visited k a rid s)
        (match_loop_invariant k a P stop go rids)
    where
      round :
          (o : Round v exponent_form)
          → visit v exponent_form k a rid s ≡ o
          → Visited k a rid s (visit v exponent_form k a rid s)
          → ((s' : ScriptState v exponent_form) → P s' → P (match_loop v exponent_form k a rids s'))
          → P (match_loop v exponent_form k a (rid ∷ rids) s)
      round (Round.halt s') e w ih = rw (e, match_loop) (stop rid s s' p (rw e at w))
      round (Round.next s') e w ih = rw (e, match_loop) (ih s' (go rid s s' p (rw e at w)))
