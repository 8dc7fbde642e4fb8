-- ===== src/Worker/Process/Locks.antt =====
-- Step 4 of process_order together with the balance lock of the script: which orders are checked
-- against the balance of their user.
use serverless_matching_engi.Prelude.{
  ℕ, ◌*◌, ◌/◌, ◌^◌, ◌<◌, ◌≤◌, ◌&&◌, not, String, true, false, ◌≡◌, refl, ap, ◌∙◌, arith, str_eq,
}
use serverless_matching_engi.Prelude.Int.{ℤ, pos, ltb_ℤ}
use serverless_matching_engi.Text.{i64_bound}
use serverless_matching_engi.Types.{Order, Side, Decimal}
use serverless_matching_engi.Cache.Scale.{unit, decimal_to_i64}
use serverless_matching_engi.Cache.Double.{to_double, to_double-less}
use serverless_matching_engi.Cache.Crates.{Crates}
use serverless_matching_engi.Cache.Valkey.{Valkey}
use serverless_matching_engi.Cache.Script.{
  Argv, locks, available_of, is_short, match_after_lock, finish,
}
use serverless_matching_engi.Cache.Script.Limits.{match_script-lock}
use serverless_matching_engi.Cache.Match.{
  PairKeys, MatchReply, MatchError, script_keys, script_argv, parse_reply, match_order_lua,
}
use serverless_matching_engi.Worker.Message
use serverless_matching_engi.Worker.Process.{lock_params}

-- The money or the amount of the base asset that the order can take.
abbrev pub exposure : (Decimal → Decimal → Decimal) → Order → Decimal
exposure mul o = elim o.side [
  | Side.buy ↦ mul (Message.or_else o.price (pos 0)) (pos o.quantity)
  | Side.sell ↦ pos o.quantity
]

abbrev pub lock_asset : String → String → Order → String
lock_asset base quote o = elim o.side [ Side.buy ↦ quote | Side.sell ↦ base ]

lock_params_lem :
    (mul : Decimal → Decimal → Decimal) (base quote : String) (o : Order)
    → lock_params mul base quote o ≡ (lock_asset base quote o, decimal_to_i64 (exposure mul o))
unfolding lock_params
lock_params_lem mul base quote o = ground arith

scaled-small :
    (d : Decimal) (c : ℕ) → d ≡ pos c → c < i64_bound * unit → decimal_to_i64 d ≡ pos (c / unit)
unfolding decimal_to_i64
scaled-small d c e h = ground arith

scaled-large : (d : Decimal) (c : ℕ) → d ≡ pos c → i64_bound * unit ≤ c → decimal_to_i64 d ≡ pos 0
unfolding decimal_to_i64
scaled-large d c e h = ground arith

module _ (v : Valkey) (f : ℕ → String) (lib : Crates) (keys : PairKeys) (o : Order)
    (db : v.Db) where
  abbrev pub argv : String × ℤ → Argv
  argv lock = script_argv lib o lock.0 lock.1

  -- The reply and the database after the match alone, with no lock in front of it.
  abbrev pub unlocked : String × ℤ → MatchReply × v.Db
  unlocked lock =
      let k = script_keys lib keys o in
      let out = finish v f k (argv lock) (match_after_lock v f k (argv lock) db) in
      (parse_reply lib out.0, out.1)

  locks_lem :
      (lock : String × ℤ) → locks v f (argv lock) ≡ (not (str_eq lock.0 "") && ltb_ℤ (pos 0) lock.1)
  unfolding script_argv
  locks_lem lock = refl

  refuses :
      (lock : String × ℤ)
      → locks v f (argv lock) ≡ true
      → is_short v f (argv lock) db ≡ true
      → match_order_lua v f lib o keys lock.0 lock.1 db
        ≡ (MatchReply.err MatchError.insufficient_balance, db)
  unfolding match_order_lua parse_reply script_argv
  refuses lock l h = rw (
    (match_script-lock v f (script_keys lib keys o) (argv lock) db).0 l h,
    match_order_lua,
    parse_reply,
  )

  passes :
      (lock : String × ℤ)
      → locks v f (argv lock) ≡ false
      → match_order_lua v f lib o keys lock.0 lock.1 db ≡ unlocked lock
  unfolding match_order_lua
  passes lock l =
      rw ((match_script-lock v f (script_keys lib keys o) (argv lock) db).2 l, match_order_lua)

  -- For an order whose exposure (the cost for a buyer, the quantity for a seller) is `c` and whose
  -- asset has a name: if `c` makes at least one unit of 10^-8 and less than 2^53 of them, an
  -- available balance below that whole number of units refuses the order, and the database stays.
  -- From 2^53 units on but below 2^63 the two numbers are compared as doubles, so a balance that is
  -- lower but rounds to the same double is not refused. If `c` makes 2^63 units or more, the amount
  -- to lock is 0 and the order is matched with no lock and no look at the balance.
  pub match_order_lua-lock :
      (mul : Decimal → Decimal → Decimal) (base quote : String) (c : ℕ)
      → exposure mul o ≡ pos c
      → str_eq (lock_asset base quote o) "" ≡ false
      → let lock = lock_params mul base quote o in
        let reply = match_order_lua v f lib o keys lock.0 lock.1 db in
        let available = available_of v f (argv lock) db in
        (unit ≤ c
          → c < 2 ^ 53 * unit
          → ltb_ℤ available (pos (c / unit)) ≡ true
          → reply ≡ (MatchReply.err MatchError.insufficient_balance, db))
        × (unit ≤ c
            → c < i64_bound * unit
            → ltb_ℤ (to_double available) (to_double (pos (c / unit))) ≡ true
            → reply ≡ (MatchReply.err MatchError.insufficient_balance, db))
        × (i64_bound * unit ≤ c → reply ≡ unlocked lock)
  unfolding script_argv
  match_order_lua-lock mul base quote c e n = (
    (λ low high short.
        checked low (omega (arith, high))
          (to_double-less available (c / unit) (omega (arith, low)) (omega (arith, high)) short)),
    checked,
    unchecked,
  )
    where
      lock : String × ℤ
      lock = lock_params mul base quote o

      available : ℤ
      available = available_of v f (argv lock) db

      checked :
          unit ≤ c
          → c < i64_bound * unit
          → ltb_ℤ (to_double available) (to_double (pos (c / unit))) ≡ true
          → match_order_lua v f lib o keys lock.0 lock.1 db
            ≡ (MatchReply.err MatchError.insufficient_balance, db)
      checked low high short =
          let p = lock_params_lem mul base quote o in
          let s = scaled-small (exposure mul o) c e high in
          refuses lock (locks_lem lock ∙ rw (p, n, s) (ground arith)) (
            ap (λ amount. ltb_ℤ (to_double available) (to_double amount))
              (ap (λ lock. lock.1) p ∙ s)
            ∙ short)

      unchecked :
          i64_bound * unit ≤ c → match_order_lua v f lib o keys lock.0 lock.1 db ≡ unlocked lock
      unchecked high =
          let p = lock_params_lem mul base quote o in
          let s = scaled-large (exposure mul o) c e high in
          passes lock (locks_lem lock ∙ rw (p, n, s))
