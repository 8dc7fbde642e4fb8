-- ===== src/Gateway/Broadcasts/Tests.antt =====
-- The views of the gateway at inputs.
use serverless_matching_engi.Prelude.{String, none, some, List, [], ◌∷◌, ◌≡◌, refl, map, All, ◌*◌}
use serverless_matching_engi.Gateway.Broadcasts.{
  CacheEntry, new_entry, get_latest, receive_all, set_and_publish_batch, update, update_entry,
}
use serverless_matching_engi.Gateway.Broadcasts.Delivery.{
  last_shown, receive_all-set_and_publish_batch,
}
use serverless_matching_engi.Gateway.Broadcasts.Pace.{
  Event, run_entries, Paced, run_entries-new_entry,
}

abbrev keys : List String
keys = "cache:pairs" ∷ "cache:audit" ∷ []

abbrev unread : List CacheEntry
unread = map (new_entry 5) keys

abbrev batch : List (String × String)
batch =
    ("cache:pairs", "[1]")
    ∷ ("cache:audit", "x")
    ∷ ("cache:pairs", "[2]")
    ∷ ("cache:pairs", "{}")
    ∷ []

-- The texts of Valkey, the newest first.
abbrev put : String → String → List (String × String) → List (String × String)
put key value db = (key, value) ∷ db

shown : last_shown "cache:pairs" batch none ≡ some "[2]"
shown = refl

-- The first value comes too early to be sent, and so does the third.
sent :
    map
      (λ e. e.sent)
      (update 150 "cache:pairs" "c"
        (update 120 "cache:pairs" "b" (update 50 "cache:pairs" "a" unread)))
    ≡ ((120, "b") ∷ []) ∷ [] ∷ []
unfolding update update_entry
sent = refl

receive_all-set_and_publish_batch_example :
    let published = set_and_publish_batch put batch (record { db = []; messages = [] }) in
    get_latest "cache:pairs" (receive_all (λ i. 60 * i) 0 published.messages unread)
    ≡ last_shown "cache:pairs" batch (get_latest "cache:pairs" unread)
receive_all-set_and_publish_batch_example =
    receive_all-set_and_publish_batch put [] batch (λ i. 60 * i) unread "cache:pairs"
      (refl, (refl, (refl, (refl, tt)))) refl

abbrev events : List Event
events =
    Event.received 50 "cache:pairs\n[1]"
    ∷ Event.polled 120 (λ key. some "x") keys
    ∷ Event.received 150 "cache:pairs\n[2]"
    ∷ Event.received 300 "cache:pairs\n[3]"
    ∷ []

run_entries-new_entry_example : All Paced (run_entries events (map (new_entry 5) keys))
run_entries-new_entry_example = run_entries-new_entry 5 keys events
