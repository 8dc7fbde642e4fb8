-- ===== src/Cache/Balance/Laws.antt =====
-- The lock of a balance by its own script, against the one in match_order.lua.
use serverless_matching_engi.Prelude.{
  ℕ, String, Bool, true, false, ◌&&◌, not, Option, none, some, ◌≡◌, ◌⊎◌, refl, str_eq, Option-cases,
  inl, inr, arith,
}
use serverless_matching_engi.Prelude.Int.{pos, ltb_ℤ}
use serverless_matching_engi.Cache.Double.{to_double, to_double-positive}
use serverless_matching_engi.Text.{parse_i64, parse_magnitude, parse_digits}
use serverless_matching_engi.Text.Exponent.{tonumber}
use serverless_matching_engi.Cache.Valkey.{Valkey}
use serverless_matching_engi.Cache.Script.{Argv, locks, lock_balance, number_or_zero}
use serverless_matching_engi.Cache.Balance.{or_zero, user_key, lock_balance_redis}

tonumber-zero : tonumber "0" ≡ some (pos 0)
unfolding parse_i64 parse_magnitude parse_digits
tonumber-zero = refl

-- Refused alike: a text that is no number counts as 0 in the other script.
number-cases :
    (text : Option String)
    → (tonumber (or_zero text) ≡ some (number_or_zero text))
      ⊎ ((tonumber (or_zero text) ≡ none) × (number_or_zero text ≡ pos 0))
number-cases none = inl tonumber-zero
number-cases (some text) = elim (Option-cases (tonumber text)) [
  | inl e ↦ inr (e, rw (e, number_or_zero))
  | inr (i, e) ↦ inl (rw (e, number_or_zero))
]

and_right : (b c : Bool) → (b && c) ≡ true → c ≡ true
and_right true c h = h
and_right false c h = absurd (ground arith)

module _ (v : Valkey) (exponent_form : ℕ → String) where
  -- Where the match script would lock a balance, which it does for an asset and a positive amount,
  -- the script of lock_balance_redis has the same outcome: the refusal, or the same two changes.
  pub lock_balance_redis-lock_balance :
      (a : Argv) (db : v.Db)
      → locks v exponent_form a ≡ true
      → lock_balance_redis v a.user_id a.lock_asset a.lock_amount db
        ≡ lock_balance v exponent_form a db
  unfolding lock_balance_redis lock_balance
  lock_balance_redis-lock_balance a db h =
      let positive : ltb_ℤ (to_double (pos 0)) (to_double a.lock_amount) ≡ true =
        to_double-positive a.lock_amount
          (and_right (not (str_eq a.lock_asset "")) (ltb_ℤ (pos 0) a.lock_amount) h) in
      elim (number-cases (v.hget (user_key a.user_id a.lock_asset) "available" db)) [
        | inl e ↦ rw (lock_balance_redis, e, lock_balance, h)
        | inr (e, z) ↦ rw (lock_balance_redis, e, lock_balance, h, z, positive)
      ]
