-- ===== src/Gateway/Broadcasts/Delivery.antt =====
-- The values that readers of crates/gateway/src/lib.rs see after others are published.
use mathlib.Core.List.{append_assoc, append-nil}
use serverless_matching_engi.Prelude.{
  ℕ, suc, String, Bool, true, false, ◌&&◌, ◌||◌, Option, some, List, [], ◌∷◌, ◌++◌, map, ◌≡◌, refl,
  sym, ap, ◌∙◌, str_eq, eq_iff, if◌then◌else◌, arith, All, Bool-cases, inl, inr,
}
use serverless_matching_engi.Gateway.Broadcasts.{
  Published, CacheEntry, payload_of, set_and_publish, set_and_publish_batch, get_latest,
  update_entry, update, is_shown, update_if_shown, receive, receive_all,
}
use serverless_matching_engi.Gateway.Broadcasts.Payload.{newlines, split_line-payload_of}

abbrev pub is_known : String → List CacheEntry → Bool
is_known key [] = false
is_known key (e ∷ cache) = str_eq e.key key || is_known key cache

-- The last value for the key that is shown, or else the old one.
abbrev pub last_shown : String → List (String × String) → Option String → Option String
last_shown key [] old = old
last_shown key ((k, value) ∷ entries) old =
    last_shown key entries (if str_eq k key && is_shown value then some value else old)

update_entry_lem :
    (now : ℕ) (value : String) (e : CacheEntry)
    → ((update_entry now value e).key ≡ e.key) × ((update_entry now value e).latest ≡ some value)
unfolding update_entry
update_entry_lem now value e = ground arith

module _ (key : String) where
  is_known-update :
      (now : ℕ) (k value : String) (cache : List CacheEntry)
      → is_known key (update now k value cache) ≡ is_known key cache
  unfolding update
  is_known-update now k value [] = refl
  is_known-update now k value (e ∷ cache) =
      ground (arith, is_known-update now k value cache, update_entry_lem now value e)

  get_latest-update :
      (now : ℕ) (k value : String) (cache : List CacheEntry)
      → is_known key cache ≡ true
      → get_latest key (update now k value cache)
        ≡ (if str_eq k key then some value else get_latest key cache)
  unfolding update get_latest
  get_latest-update now k value [] h = ground arith
  get_latest-update now k value (e ∷ cache) h = ground (
    arith,
    get_latest-update now k value cache,
    update_entry_lem now value e,
    eq_iff e.key k,
    eq_iff e.key key,
    eq_iff k key,
  )

  is_known-update_if_shown :
      (now : ℕ) (k value : String) (cache : List CacheEntry)
      → is_known key (update_if_shown now k value cache) ≡ is_known key cache
  is_known-update_if_shown now k value cache = elim (Bool-cases (is_shown value)) [
    | inl e ↦ rw e (is_known-update now k value cache)
    | inr e ↦ rw e
  ]

  get_latest-update_if_shown :
      (now : ℕ) (k value : String) (cache : List CacheEntry)
      → is_known key cache ≡ true
      → get_latest key (update_if_shown now k value cache)
        ≡ (if str_eq k key && is_shown value then some value else get_latest key cache)
  get_latest-update_if_shown now k value cache h =
      ground (arith, get_latest-update now k value cache h)

  receive-payload_of :
      (now : ℕ) (k value : String) (cache : List CacheEntry)
      → newlines k ≡ 0
      → receive now (payload_of k value) cache ≡ update_if_shown now k value cache
  unfolding receive
  receive-payload_of now k value cache h = rw (split_line-payload_of k value h, receive)

  receive_all-payloads :
      (clock : ℕ → ℕ) (i : ℕ) (entries : List (String × String)) (cache : List CacheEntry)
      → All (λ entry. newlines entry.0 ≡ 0) entries
      → is_known key cache ≡ true
      → get_latest key
          (receive_all clock i (map (λ entry. payload_of entry.0 entry.1) entries) cache)
        ≡ last_shown key entries (get_latest key cache)
  unfolding receive_all
  receive_all-payloads clock i [] cache plain h = refl
  receive_all-payloads clock i ((k, value) ∷ entries) cache plain h =
      let now = clock i in
      let known = is_known-update_if_shown now k value cache in
      rw (receive-payload_of now k value cache plain.0, receive_all)
        (receive_all-payloads clock (suc i) entries (update_if_shown now k value cache) plain.1
            (known ∙ h)
          ∙ ap (last_shown key entries) (get_latest-update_if_shown now k value cache h))

messages-set_and_publish_batch :
    {Db : Type 0} (set : String → String → Db → Db) (entries : List (String × String))
    (p : Published Db)
    → (set_and_publish_batch set entries p).messages
      ≡ p.messages ++ map (λ entry. payload_of entry.0 entry.1) entries
unfolding set_and_publish_batch set_and_publish
messages-set_and_publish_batch set [] p = sym (append-nil p.messages)
messages-set_and_publish_batch set ((k, value) ∷ entries) p =
    messages-set_and_publish_batch set entries (set_and_publish set k value p)
    ∙ append_assoc p.messages (payload_of k value ∷ [])
        (map (λ entry. payload_of entry.0 entry.1) entries)

-- A batch of values, for keys without a line end, that is published and then received: for a key
-- that the gateway keeps, its readers see the last value of the batch for it that is not empty and
-- not the empty object, or what they saw before if there is none.
pub receive_all-set_and_publish_batch :
    {Db : Type 0} (set : String → String → Db → Db) (db : Db) (entries : List (String × String))
    (clock : ℕ → ℕ) (cache : List CacheEntry) (key : String)
    → All (λ entry. newlines entry.0 ≡ 0) entries
    → is_known key cache ≡ true
    → let published = set_and_publish_batch set entries (record { db = db; messages = [] }) in
      get_latest key (receive_all clock 0 published.messages cache)
      ≡ last_shown key entries (get_latest key cache)
receive_all-set_and_publish_batch set db entries clock cache key plain h =
    rw (messages-set_and_publish_batch set entries (record { db = db; messages = [] }))
      (receive_all-payloads key clock 0 entries cache plain h)
