-- ===== src/Gateway/Broadcasts/Pace.antt =====
-- How often crates/gateway/src/lib.rs sends the values of a key to its clients.
use serverless_matching_engi.Prelude.{
  ℕ, ◌+◌, ◌-◌, ◌≤◌, String, Option, List, [], ◌∷◌, map, str_eq, arith, All, Bool-cases,
  Option-cases, inl, inr, leb, leb→le,
}
use serverless_matching_engi.Gateway.Broadcasts.{
  CacheEntry, new_entry, ws_broadcast_interval_ms, update_entry, update, is_shown, update_if_shown,
  receive, poll, split_line,
}

-- What happens to the entries: a message arrives, or all keys are read.
pub data Event : Type 0 where
  received : ℕ → String → Event
  polled : ℕ → (String → Option String) → List String → Event

abbrev pub happen : Event → List CacheEntry → List CacheEntry
happen (Event.received now payload) cache = receive now payload cache
happen (Event.polled now get keys) cache = poll now get keys cache

abbrev pub run_entries : List Event → List CacheEntry → List CacheEntry
run_entries [] cache = cache
run_entries (event ∷ events) cache = run_entries events (happen event cache)

-- Every value was sent at least 100 ms after each of those before it, which follow in the list.
abbrev pub Spaced : List (ℕ × String) → Type 0
Spaced [] = Unit
Spaced ((time, value) ∷ sent) =
    All (λ older. older.0 + ws_broadcast_interval_ms ≤ time) sent × Spaced sent

-- And none after the time that the entry remembers.
abbrev pub Paced : CacheEntry → Type 0
Paced e = All (λ s. s.0 ≤ e.last_broadcast) e.sent × Spaced e.sent

All-later :
    (a b n : ℕ) (sent : List (ℕ × String))
    → a + n ≤ b
    → All (λ s. s.0 ≤ a) sent
    → All (λ s. s.0 + n ≤ b) sent
All-later a b n [] h k = tt
All-later a b n (s ∷ sent) h k = (omega (arith, h, k.0), All-later a b n sent h k.1)

All-before :
    (a b : ℕ) (sent : List (ℕ × String)) → a ≤ b → All (λ s. s.0 ≤ a) sent → All (λ s. s.0 ≤ b) sent
All-before a b [] h k = tt
All-before a b (s ∷ sent) h k = (omega (arith, h, k.0), All-before a b sent h k.1)

update_entry-Paced :
    (now : ℕ) (value : String) (e : CacheEntry) → Paced e → Paced (update_entry now value e)
unfolding update_entry
update_entry-Paced now value e k =
    elim (Bool-cases (leb ws_broadcast_interval_ms (now - e.last_broadcast))) [
      | inr c ↦ rw (c, update_entry) k
      | inl c ↦
          let later : e.last_broadcast + 100 ≤ now =
            omega (arith, leb→le 100 (now - e.last_broadcast) c) in
          rw (c, update_entry)
            (
              (omega (arith), All-before e.last_broadcast now e.sent (omega (arith, later)) k.0),
              (All-later e.last_broadcast now 100 e.sent later k.0, k.1),
            )
    ]

update-AllPaced :
    (now : ℕ) (key value : String) (cache : List CacheEntry)
    → All Paced cache
    → All Paced (update now key value cache)
unfolding update
update-AllPaced now key value [] k = tt
update-AllPaced now key value (e ∷ cache) k = elim (Bool-cases (str_eq e.key key)) [
  | inl c ↦ rw (c, update) (update_entry-Paced now value e k.0, k.1)
  | inr c ↦ rw (c, update) (k.0, update-AllPaced now key value cache k.1)
]

update_if_shown-AllPaced :
    (now : ℕ) (key value : String) (cache : List CacheEntry)
    → All Paced cache
    → All Paced (update_if_shown now key value cache)
update_if_shown-AllPaced now key value cache k = elim (Bool-cases (is_shown value)) [
  | inl c ↦ rw c (update-AllPaced now key value cache k)
  | inr c ↦ rw c k
]

receive-AllPaced :
    (now : ℕ) (payload : String) (cache : List CacheEntry)
    → All Paced cache
    → All Paced (receive now payload cache)
unfolding receive
receive-AllPaced now payload cache k = elim (Option-cases (split_line payload)) [
  | inl c ↦ rw (c, receive) k
  | inr ((key, value), c) ↦ rw (c, receive) (update_if_shown-AllPaced now key value cache k)
]

poll-AllPaced :
    (now : ℕ) (get : String → Option String) (keys : List String) (cache : List CacheEntry)
    → All Paced cache
    → All Paced (poll now get keys cache)
unfolding poll
poll-AllPaced now get [] cache k = k
poll-AllPaced now get (key ∷ keys) cache k = elim (Option-cases (get key)) [
  | inl c ↦ rw (c, poll) (poll-AllPaced now get keys cache k)
  | inr (value, c) ↦
      rw (c, poll)
        (poll-AllPaced now get keys (update_if_shown now key value cache)
          (update_if_shown-AllPaced now key value cache k))
]

new_entries-AllPaced : (now : ℕ) (keys : List String) → All Paced (map (new_entry now) keys)
new_entries-AllPaced now [] = tt
new_entries-AllPaced now (key ∷ keys) = ((tt, tt), new_entries-AllPaced now keys)

run_entries-AllPaced :
    (events : List Event) (cache : List CacheEntry)
    → All Paced cache
    → All Paced (run_entries events cache)
run_entries-AllPaced [] cache k = k
run_entries-AllPaced (Event.received now payload ∷ events) cache k =
    run_entries-AllPaced events (receive now payload cache) (receive-AllPaced now payload cache k)
run_entries-AllPaced (Event.polled now get keys ∷ events) cache k =
    run_entries-AllPaced events (poll now get keys cache) (poll-AllPaced now get keys cache k)

-- From the start of the process, whatever messages arrive and whatever the poller reads, and even
-- if the clock goes back: the values of one key that go to the clients are sent at least 100 ms
-- after one another.
pub run_entries-new_entry :
    (start : ℕ) (keys : List String) (events : List Event)
    → All Paced (run_entries events (map (new_entry start) keys))
run_entries-new_entry start keys events =
    run_entries-AllPaced events (map (new_entry start) keys) (new_entries-AllPaced start keys)
