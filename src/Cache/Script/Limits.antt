-- ===== src/Cache/Script/Limits.antt =====
-- The price and the parties of the script's trades, and the balance lock.
use serverless_matching_engi.Prelude.{
  ℕ, String, [], ◌∷◌, ◌≡◌, ◌≢◌, ◌⊎◌, arith, All, All-push, true, false, str_eq, eq_iff, min,
}
use serverless_matching_engi.Prelude.Int.{ℤ, neg, ◌≤ℤ◌, pos_part}
use serverless_matching_engi.Types.{OrderType, Side, SelfTradePreventionMode}
use serverless_matching_engi.Cache.Double.{to_double}
use serverless_matching_engi.Cache.Valkey.{Valkey}
use serverless_matching_engi.Cache.Script.{
  Keys, Argv, Resting, ScriptState, ScriptTrade, Round, script_trade, trade_with, match_after_lock,
  start, compatible, combined, lock_balance, match_script, balance_key, is_short, locks, finish,
}
use serverless_matching_engi.Cache.Script.Rounds.{Visited, match_loop_invariant}

-- A limit order buys at its limit or below and sells at its limit or above.
abbrev pub WithinLimit : OrderType → Side → ℤ → ℤ → Type 0
WithinLimit OrderType.market side limit price = Unit
WithinLimit OrderType.limit Side.buy limit price = price ≤ℤ limit
WithinLimit OrderType.limit Side.sell limit price = limit ≤ℤ price

abbrev pub OnSide : Side → String → ScriptTrade → Type 0
OnSide Side.buy user t = t.buyer_id ≡ user
OnSide Side.sell user t = t.seller_id ≡ user

pub record IsProper (a : Argv) (t : ScriptTrade) : Type 0 where
  pub on_side : OnSide a.side a.user_id t
  pub within_limit : WithinLimit a.order_type a.side a.price_i t.price_i
  pub no_self_trade : (a.stp_mode ≡ SelfTradePreventionMode.none) ⊎ (t.buyer_id ≢ t.seller_id)

module _ (a : Argv) (rid : String) (r : Resting) (n : ℕ) where
  script_trade-OnSide : OnSide a.side a.user_id (script_trade a rid r n)
  unfolding script_trade
  script_trade-OnSide = ground arith

  script_trade-WithinLimit :
      compatible a r ≡ true
      → WithinLimit a.order_type a.side a.price_i (script_trade a rid r n).price_i
  unfolding script_trade compatible
  script_trade-WithinLimit c = ground arith

  script_trade-no_self :
      (str_eq a.user_id r.user_id ≡ false)
        ⊎ (combined a.stp_mode r.stp ≡ SelfTradePreventionMode.none)
      → (a.stp_mode ≡ SelfTradePreventionMode.none)
        ⊎ ((script_trade a rid r n).buyer_id ≢ (script_trade a rid r n).seller_id)
  unfolding script_trade combined
  script_trade-no_self u = ground (arith, eq_iff a.user_id r.user_id)

  script_trade-IsProper :
      compatible a r ≡ true
      → (str_eq a.user_id r.user_id ≡ false)
        ⊎ (combined a.stp_mode r.stp ≡ SelfTradePreventionMode.none)
      → IsProper a (script_trade a rid r n)
  script_trade-IsProper c u = record {
    on_side = script_trade-OnSide;
    within_limit = script_trade-WithinLimit c;
    no_self_trade = script_trade-no_self u;
  }

module _ (v : Valkey) (exponent_form : ℕ → String) (k : Keys) (a : Argv) where
  open v use {Db}

  abbrev AllProper : ScriptState v exponent_form → Type 0
  AllProper s = All (IsProper a) s.trades

  halt-AllProper :
      (rid : String) (s s' : ScriptState v exponent_form)
      → AllProper s
      → Visited v exponent_form k a rid s (Round.halt s')
      → AllProper s'
  halt-AllProper rid s s' h (Visited.done e) = h
  halt-AllProper rid s s' h (Visited.apart r p) = h
  halt-AllProper rid s s' h (Visited.stopped db p) = h

  next-AllProper :
      (rid : String) (s s' : ScriptState v exponent_form)
      → AllProper s
      → Visited v exponent_form k a rid s (Round.next s')
      → AllProper s'
  next-AllProper rid s s' h Visited.ghost = h
  next-AllProper rid s s' h (Visited.maker db) = h
  next-AllProper rid s s' h (Visited.traded r p c m u) =
      unfold trade_with in
      All-push (IsProper a) s.trades _ h
        (script_trade-IsProper a rid r (min s.remaining_i (pos_part r.remaining_i)) m u)

  -- Every trade of the script has the user of the incoming order on that order's side; a limit
  -- order trades at its limit or better, also with a resting market order; and no user trades with
  -- itself unless the mode of the incoming order is `none`.
  pub match_after_lock-IsProper :
      (db : Db) → All (IsProper a) (match_after_lock v exponent_form k a db).trades
  unfolding match_after_lock
  match_after_lock-IsProper db =
      match_loop_invariant v exponent_form k a AllProper halt-AllProper next-AllProper _
        (start v exponent_form a db) tt

  -- The balance lock. With an asset and a positive amount, a lower available balance refuses the
  -- order with that reply and leaves the database alone; one that is high enough is moved, by the
  -- amount, from `available` to `locked` before the match. With no asset, or an amount of zero or
  -- less, the match runs and no balance is looked at.
  pub match_script-lock :
      (db : Db)
      → let key = balance_key v exponent_form a.user_id a.lock_asset in
        let amount = to_double a.lock_amount in
        let locked = v.hincrby key "locked" amount (v.hincrby key "available" (neg amount) db) in
        (locks v exponent_form a ≡ true
          → is_short v exponent_form a db ≡ true
          → match_script v exponent_form k a db ≡ ("INSUFFICIENT_BALANCE" ∷ [], db))
        × (locks v exponent_form a ≡ true
            → is_short v exponent_form a db ≡ false
            → match_script v exponent_form k a db
              ≡ finish v exponent_form k a (match_after_lock v exponent_form k a locked))
        × (locks v exponent_form a ≡ false
            → match_script v exponent_form k a db
              ≡ finish v exponent_form k a (match_after_lock v exponent_form k a db))
  unfolding match_script lock_balance
  match_script-lock db =
      ((λ l e. rw (lock_balance, l, e, match_script)), (λ l e. ground arith), (λ l. ground arith))
