-- ===== src/Cache/Valkey.antt =====
-- The commands of Valkey that the program uses. Valkey is a service, so its database and its
-- commands are a parameter: no theorem assumes more of them than a hypothesis that it states.
-- Commands are taken to succeed; a lost connection is outside the model. Keys, members and fields
-- are the texts that the program builds. Scores are whole numbers below 2^53, exact as doubles.
use serverless_matching_engi.Prelude.{ℕ, String, Option, List}
use serverless_matching_engi.Prelude.Int.{ℤ}

-- A bound of ZRANGEBYSCORE.
pub data Bound : Type 0 where
  minus_inf plus_inf : Bound
  at : ℤ → Bound

pub record Valkey : Type 1 where
  pub Db : Type 0
  pub get : String → Db → Option String
  pub hget : String → String → Db → Option String
  -- Members between two scores, from the lowest, after an offset and up to a count.
  pub zrangebyscore : String → Bound → Bound → Option (ℕ × ℕ) → Db → List String
  pub hincrby : String → String → ℤ → Db → Db
  pub hset : String → List (String × String) → Db → Db
  pub zadd : String → ℤ → String → Db → Db
  pub zrem : String → String → Db → Db
  pub del : String → Db → Db
  pub expire : String → ℕ → Db → Db
  pub incr : String → Db → Db
