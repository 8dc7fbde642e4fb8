-- ===== src/Cache/Balance.antt =====
-- lock_balance_redis of crates/shared/src/cache.rs and its script LOCK_BALANCE_LUA,
-- which computes with doubles.
pub mod Laws
mod Tests
use Prim.Native.String.{◌++◌ as append}
use serverless_matching_engi.Prelude.{String, Option, none, some, if◌then◌else◌}
use serverless_matching_engi.Prelude.Int.{ℤ, neg, ltb_ℤ}
use serverless_matching_engi.Cache.Double.{to_double}
use serverless_matching_engi.Text.Exponent.{tonumber}
use serverless_matching_engi.Cache.Valkey.{Valkey}

-- `redis.call('HGET', ..) or '0'`
abbrev pub or_zero : Option String → String
or_zero none = "0"
or_zero (some text) = text

abbrev pub user_key : String → String → String
user_key user_id asset = append "balance:" (append user_id (append ":" asset))

module _ (v : Valkey) where
  open v use {Db, hget, hincrby}

  -- The database after the lock; `none` is the error INSUFFICIENT_BALANCE, also for a balance that
  -- is no number.
  unfoldable pub lock_balance_redis : String → String → ℤ → Db → Option Db
  lock_balance_redis user_id asset amount db =
      elim (tonumber (or_zero (hget (user_key user_id asset) "available" db))) [
        | none ↦ none
        | some avail ↦
            let locked = to_double amount in
            if ltb_ℤ (to_double avail) locked
            then none
            else some (
                hincrby (user_key user_id asset) "locked" locked
                  (hincrby (user_key user_id asset) "available" (neg locked) db))
      ]
