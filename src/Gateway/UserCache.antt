-- ===== src/Gateway/UserCache.antt =====
-- UserCache of crates/gateway/src/routes.rs: the answers for a user, each with the time when it was
-- stored. The map is a list of entries, Instants are milliseconds; one call reads the clock once.
pub mod Lookup
mod Tests
use serverless_matching_engi.Prelude.{
  ℕ, ◌-◌, ◌*◌, String, Bool, Option, none, some, List, [], ◌∷◌, str_eq, if◌then◌else◌, ltb, length,
}

abbrev pub user_cache_ttl_ms : ℕ
user_cache_ttl_ms = 2000

-- Key, time and value.
abbrev pub Stored : Type 0
Stored = String × ℕ × String

unfoldable pub find_stored : String → List Stored → Option (ℕ × String)
find_stored key [] = none
find_stored key ((k, ts, val) ∷ rest) =
    if str_eq k key then some (ts, val) else find_stored key rest

abbrev pub unexpired : ℕ → Option (ℕ × String) → Option String
unexpired now none = none
unexpired now (some (ts, val)) = if ltb (now - ts) user_cache_ttl_ms then some val else none

-- The value, if its time to live has not expired.
unfoldable pub get_cached : ℕ → String → List Stored → Option String
get_cached now key cache = unexpired now (find_stored key cache)

-- `insert`, which replaces the entry with the key.
unfoldable pub put_stored : String → ℕ → String → List Stored → List Stored
put_stored key ts val [] = (key, ts, val) ∷ []
put_stored key ts val ((k, t, v) ∷ rest) =
    if str_eq k key then (key, ts, val) ∷ rest else (k, t, v) ∷ put_stored key ts val rest

abbrev pub is_recent : ℕ → Stored → Bool
is_recent now (k, ts, val) = ltb (now - ts) (user_cache_ttl_ms * 2)

unfoldable pub retain : ℕ → List Stored → List Stored
retain now [] = []
retain now (entry ∷ rest) =
    let kept = retain now rest in if is_recent now entry then entry ∷ kept else kept

unfoldable pub set_cached : ℕ → String → String → List Stored → List Stored
set_cached now key val cache =
    let stored = put_stored key now val cache in
    if ltb 1000 (length stored) then retain now stored else stored
