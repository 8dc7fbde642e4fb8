-- ===== src/Cache/Crates.antt =====
-- What cache.rs uses of the crates uuid and chrono, which are not part of the repository.
use serverless_matching_engi.Prelude.{String, Option, ℕ}
use serverless_matching_engi.Prelude.Int.{ℤ}
use serverless_matching_engi.Types.{Uuid, DateTime}

pub record Crates : Type 0 where
  -- Uuid: `to_string` and `parse`.
  pub uuid_to_string : Uuid → String
  pub parse_uuid : String → Option Uuid
  -- DateTime<Utc>: `timestamp_millis`, `Utc.timestamp_opt(..).single()` at seconds and
  -- nanoseconds, and `Utc::now()`.
  pub timestamp_millis : DateTime → ℤ
  pub timestamp_opt : ℤ → ℕ → Option DateTime
  pub now : DateTime
