-- ===== src/Cache/Script/Quantity.antt =====
-- How much the script trades.
use serverless_matching_engi.Prelude.{
  ℕ, ◌+◌, ◌≤◌, ◌<◌, String, [], ◌∷◌, ◌≡◌, ◌≢◌, refl, ◌⊎◌, inl, inr, arith, sum_by, sum_by-append,
  min, All, All-push, false,
}
use serverless_matching_engi.Prelude.Int.{pos_part}
use serverless_matching_engi.Types.{OrderStatus, TimeInForce}
use serverless_matching_engi.Cache.Valkey.{Valkey}
use serverless_matching_engi.Cache.Script.{
  Keys, Argv, Resting, ScriptState, ScriptTrade, Round, script_trade, trade_with, is_consumed,
  match_after_lock, final_status, start,
}
use serverless_matching_engi.Cache.Script.Rounds.{Visited, match_loop_invariant}

module _ (v : Valkey) (exponent_form : ℕ → String) (k : Keys) (a : Argv) where
  open v use {Db}

  abbrev pub traded : ScriptState v exponent_form → ℕ
  traded s = sum_by (λ t. t.qty_i) s.trades

  -- The loop owes the quantity, unless self-trade prevention stopped it; each trade is for
  -- something.
  abbrev pub Accounts : ScriptState v exponent_form → Type 0
  Accounts s =
      All (λ t. 0 < t.qty_i) s.trades
      × (((s.status ≡ OrderStatus.new) × (traded s + s.remaining_i ≡ a.qty_i))
          ⊎ ((s.status ≡ OrderStatus.cancelled) × (s.remaining_i ≡ 0) × (traded s < a.qty_i)))

  trade-Accounts :
      (rid : String) (r : Resting) (s : ScriptState v exponent_form)
      → 0 < s.remaining_i
      → is_consumed r ≡ false
      → Accounts s
      → Accounts (trade_with v exponent_form k a rid r s)
  unfolding trade_with script_trade
  trade-Accounts rid r s h c (positive, owed) =
      let n = min s.remaining_i (pos_part r.remaining_i) in
      let more =
        sum_by-append {0} (λ (t : ScriptTrade). t.qty_i) s.trades (script_trade a rid r n ∷ []) in
      (
        All-push (λ t. 0 < t.qty_i) s.trades (script_trade a rid r n) positive (ground arith),
        ground (arith, more),
      )

  halt-Accounts :
      (rid : String) (s s' : ScriptState v exponent_form)
      → Accounts s
      → Visited v exponent_form k a rid s (Round.halt s')
      → Accounts s'
  halt-Accounts rid s s' h (Visited.done e) = h
  halt-Accounts rid s s' h (Visited.apart r p) = h
  halt-Accounts rid s s' (positive, inl owed) (Visited.stopped db p) =
      (positive, inr (refl, refl, omega arith))
  halt-Accounts rid s s' (positive, inr owed) (Visited.stopped db p) = absurd (omega arith)

  next-Accounts :
      (rid : String) (s s' : ScriptState v exponent_form)
      → Accounts s
      → Visited v exponent_form k a rid s (Round.next s')
      → Accounts s'
  next-Accounts rid s s' h Visited.ghost = h
  next-Accounts rid s s' h (Visited.maker db) = h
  next-Accounts rid s s' h (Visited.traded r p c m u) = trade-Accounts rid r s p c h

  match_after_lock-Accounts : (db : Db) → Accounts (match_after_lock v exponent_form k a db)
  unfolding match_after_lock
  match_after_lock-Accounts db =
      match_loop_invariant v exponent_form k a Accounts halt-Accounts next-Accounts _
        (start v exponent_form a db) (tt, inl (refl, omega arith))

  -- What the status that the script returns tells.
  abbrev pub Tells : ScriptState v exponent_form → OrderStatus → Type 0
  Tells s OrderStatus.new = (a.tif ≢ TimeInForce.ioc) × (traded s ≡ 0) × (s.remaining_i ≡ a.qty_i)
  Tells s OrderStatus.partially_filled =
      (a.tif ≢ TimeInForce.ioc)
      × (0 < traded s)
      × (0 < s.remaining_i)
      × (traded s + s.remaining_i ≡ a.qty_i)
  Tells s OrderStatus.filled = (traded s ≡ a.qty_i) × (s.remaining_i ≡ 0)
  Tells s OrderStatus.cancelled =
      (traded s < a.qty_i)
      × (((a.tif ≡ TimeInForce.ioc) × (traded s + s.remaining_i ≡ a.qty_i)) ⊎ (s.remaining_i ≡ 0))
  Tells s OrderStatus.rejected = ⊥

  final_status-Tells :
      (s : ScriptState v exponent_form) → Accounts s → Tells s (final_status v exponent_form a s)
  unfolding final_status
  final_status-Tells s h = ground arith

  -- The quantities that the script returns: no trade is for nothing,
  -- all trades together are for at most the quantity, and what they add up to with the remainder is
  -- told by the status: `filled` is all of it with no remainder, `new` is none of it, and
  -- `partially_filled` a part, the remainder being the rest of it; both occur for an order that is
  -- not immediate-or-cancel. `cancelled` is less than all, and the remainder is the rest of it for
  -- an immediate-or-cancel order, or else 0, as self-trade prevention sets it.
  pub match_after_lock-Tells :
      (db : Db)
      → let s = match_after_lock v exponent_form k a db in
        All (λ t. 0 < t.qty_i) s.trades
        × (traded s ≤ a.qty_i)
        × Tells s (final_status v exponent_form a s)
  match_after_lock-Tells db =
      let s = match_after_lock v exponent_form k a db in
      let h = match_after_lock-Accounts db in (h.0, omega (arith, h.1), final_status-Tells s h)
