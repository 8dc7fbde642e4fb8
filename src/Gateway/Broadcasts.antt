-- ===== src/Gateway/Broadcasts.antt =====
-- The views on their way to the clients: set_and_publish and set_and_publish_batch of
-- crates/shared/src/cache.rs, and CacheBroadcasts of crates/gateway/src/lib.rs with its subscriber
-- and its poller. SET of Valkey is a parameter. The map of entries is a list of entries with their
-- keys, Instants are milliseconds, and the channel to the clients is the list of what was sent,
-- the newest first, with the time; one update reads the clock once. Lost connections and receivers
-- that lag behind are not modelled.
pub mod Payload
pub mod Delivery
pub mod Pace
mod Tests
use Prim.Native.Char.{Char, code}
use Prim.Native.String.{◌++◌ as append}
use serverless_matching_engi.Prelude.{
  ℕ, suc, ◌-◌, ◌==◌, String, Bool, true, false, ◌||◌, not, Option, none, some, List, [], ◌∷◌, ◌++◌,
  map, str_eq, if◌then◌else◌, leb,
}

-- The texts in Valkey, and the messages on the channel `cache_updates`.
pub record Published (Db : Type 0) : Type 0 where
  pub db : Db
  pub messages : List String

abbrev pub payload_of : String → String → String
payload_of key value = append key (append "\n" value)

unfoldable pub set_and_publish :
    {Db : Type 0} → (String → String → Db → Db) → String → String → Published Db → Published Db
set_and_publish set key value p = record {
  db = set key value p.db;
  messages = p.messages ++ payload_of key value ∷ [];
}

unfoldable pub set_and_publish_batch :
    {Db : Type 0}
    → (String → String → Db → Db)
    → List (String × String)
    → Published Db
    → Published Db
set_and_publish_batch set [] p = p
set_and_publish_batch set ((key, value) ∷ entries) p =
    set_and_publish_batch set entries (set_and_publish set key value p)

-- The value for the readers, and what went to the clients.
pub record CacheEntry : Type 0 where
  pub key : String
  pub latest : Option String
  pub sent : List (ℕ × String)
  pub last_broadcast : ℕ

-- At the start of the process, for every key that is polled.
abbrev pub new_entry : ℕ → String → CacheEntry
new_entry now key = record { key = key; latest = none; sent = []; last_broadcast = now }

abbrev pub ws_broadcast_interval_ms : ℕ
ws_broadcast_interval_ms = 100

unfoldable pub get_latest : String → List CacheEntry → Option String
get_latest key [] = none
get_latest key (e ∷ entries) = if str_eq e.key key then e.latest else get_latest key entries

-- The readers get every value, the clients one if 100 ms have passed since the last.
unfoldable pub update_entry : ℕ → String → CacheEntry → CacheEntry
update_entry now value e =
    if leb ws_broadcast_interval_ms (now - e.last_broadcast)
    then record e { latest = some value; sent = (now, value) ∷ e.sent; last_broadcast = now }
    else record e { latest = some value }

unfoldable pub update : ℕ → String → String → List CacheEntry → List CacheEntry
update now key value [] = []
update now key value (e ∷ entries) =
    if str_eq e.key key
    then update_entry now value e ∷ entries
    else e ∷ update now key value entries

abbrev pub is_newline : Char → Bool
is_newline c = code c == 10

abbrev pub in_front : Char → Option (String × String) → Option (String × String)
in_front c none = none
in_front c (some (key, value)) = some (String.◌∷◌ c key, value)

-- `payload.find('\n')`, with what stands before and behind it.
unfoldable pub split_line : String → Option (String × String)
split_line String.[] = none
split_line (String.◌∷◌ c s) =
    let rest = split_line s in if is_newline c then some ("", s) else in_front c rest

-- Neither empty nor the empty object.
abbrev pub is_shown : String → Bool
is_shown value = not (str_eq value "" || str_eq value "{}")

abbrev pub update_if_shown : ℕ → String → String → List CacheEntry → List CacheEntry
update_if_shown now key value cache = if is_shown value then update now key value cache else cache

-- One message of the channel.
unfoldable pub receive : ℕ → String → List CacheEntry → List CacheEntry
receive now payload cache = elim (split_line payload) [
  | none ↦ cache
  | some (key, value) ↦ update_if_shown now key value cache
]

-- All messages, the one with the number `i` at the time `clock i`.
unfoldable pub receive_all : (ℕ → ℕ) → ℕ → List String → List CacheEntry → List CacheEntry
receive_all clock i [] cache = cache
receive_all clock i (payload ∷ messages) cache =
    receive_all clock (suc i) messages (receive (clock i) payload cache)

-- One round of the poller, which the start runs too: GET of every key.
unfoldable pub poll : ℕ → (String → Option String) → List String → List CacheEntry → List CacheEntry
poll now get [] cache = cache
poll now get (key ∷ keys) cache = elim (get key) [
  | none ↦ poll now get keys cache
  | some value ↦ poll now get keys (update_if_shown now key value cache)
]
