-- ===== src/Gateway/UserCache/Lookup.antt =====
-- What UserCache of crates/gateway/src/routes.rs answers after a value was stored.
use serverless_matching_engi.Prelude.{
  ℕ, ◌-◌, ◌≤◌, String, Bool, true, false, ◌||◌, none, some, List, [], ◌∷◌, ◌≡◌, refl, str_eq,
  eq_iff, if◌then◌else◌, ltb, length, arith, Bool-cases, inl, inr, ap, subst, sym, ◌∙◌,
}
use serverless_matching_engi.Gateway.UserCache.{
  Stored, user_cache_ttl_ms, find_stored, unexpired, get_cached, put_stored, is_recent, retain,
  set_cached,
}

abbrev pub holds : String → List Stored → Bool
holds key [] = false
holds key ((k, ts, val) ∷ rest) = str_eq k key || holds key rest

-- No key twice, as in a map.
abbrev pub IsMap : List Stored → Type 0
IsMap [] = Unit
IsMap ((k, ts, val) ∷ rest) = (holds k rest ≡ false) × IsMap rest

holds-put_stored :
    (k key : String) (ts : ℕ) (val : String) (cache : List Stored)
    → holds k (put_stored key ts val cache) ≡ (str_eq key k || holds k cache)
unfolding put_stored
holds-put_stored k key ts val [] = ground arith
holds-put_stored k key ts val ((k', t, v) ∷ rest) =
    ground (arith, holds-put_stored k key ts val rest, eq_iff k' key, eq_iff k' k, eq_iff key k)

put_stored-IsMap :
    (key : String) (ts : ℕ) (val : String) (cache : List Stored)
    → IsMap cache
    → IsMap (put_stored key ts val cache)
unfolding put_stored
put_stored-IsMap key ts val [] h = (refl, tt)
put_stored-IsMap key ts val ((k, t, v) ∷ rest) (fresh, h) = elim (Bool-cases (str_eq k key)) [
  | inl c ↦ rw (c, put_stored) (subst (λ x. holds x rest ≡ false) ((eq_iff k key).0 c) fresh, h)
  | inr c ↦
      let apart : str_eq key k ≡ false = ground (arith, eq_iff k key, eq_iff key k) in
      rw (c, put_stored)
        (
          holds-put_stored k key ts val rest ∙ rw (apart, fresh) refl,
          put_stored-IsMap key ts val rest h,
        )
]

find_stored-put_stored :
    (k key : String) (ts : ℕ) (val : String) (cache : List Stored)
    → find_stored k (put_stored key ts val cache)
      ≡ (if str_eq key k then some (ts, val) else find_stored k cache)
unfolding find_stored put_stored
find_stored-put_stored k key ts val [] = refl
find_stored-put_stored k key ts val ((k', t, v) ∷ rest) =
    ground
      (arith, find_stored-put_stored k key ts val rest, eq_iff k' key, eq_iff k' k, eq_iff key k)

holds-retain :
    (k : String) (now : ℕ) (cache : List Stored)
    → holds k cache ≡ false
    → holds k (retain now cache) ≡ false
unfolding retain
holds-retain k now [] h = refl
holds-retain k now ((k', t, v) ∷ rest) h = ground (arith, holds-retain k now rest)

retain-IsMap : (now : ℕ) (cache : List Stored) → IsMap cache → IsMap (retain now cache)
unfolding retain
retain-IsMap now [] h = tt
retain-IsMap now ((k, t, v) ∷ rest) (fresh, h) = elim (Bool-cases (is_recent now (k, t, v))) [
  | inl c ↦ rw (c, retain) (holds-retain k now rest fresh, retain-IsMap now rest h)
  | inr c ↦ rw (c, retain) (retain-IsMap now rest h)
]

find_stored-none :
    (k : String) (cache : List Stored) → holds k cache ≡ false → find_stored k cache ≡ none
unfolding find_stored
find_stored-none k [] h = refl
find_stored-none k ((k', t, v) ∷ rest) h = ground (arith, find_stored-none k rest)

find_stored-hit :
    (k key : String) (t : ℕ) (v : String) (rest : List Stored)
    → str_eq k key ≡ true
    → find_stored key ((k, t, v) ∷ rest) ≡ some (t, v)
unfolding find_stored
find_stored-hit k key t v rest e = rw (e, find_stored)

find_stored-miss :
    (k key : String) (t : ℕ) (v : String) (rest : List Stored)
    → str_eq k key ≡ false
    → find_stored key ((k, t, v) ∷ rest) ≡ find_stored key rest
unfolding find_stored
find_stored-miss k key t v rest e = rw (e, find_stored)

-- What is dropped would not be answered any more.
get_cached-retain :
    (later now : ℕ) (key : String) (cache : List Stored)
    → now ≤ later
    → IsMap cache
    → get_cached later key (retain now cache) ≡ get_cached later key cache
unfolding get_cached retain
get_cached-retain later now key [] le h = refl
get_cached-retain later now key ((k, t, v) ∷ rest) le (fresh, h) =
    let later_rest = get_cached-retain later now key rest le h in
    let miss = λ (xs : List Stored) (e : str_eq k key ≡ false).
      ap (unexpired later) (find_stored-miss k key t v xs e) in
    elim (Bool-cases (str_eq k key)) [
      | inr e ↦ elim (Bool-cases (is_recent now (k, t, v))) [
        | inl c ↦ rw (c, retain) (miss (retain now rest) e ∙ later_rest ∙ sym (miss rest e))
        | inr c ↦ rw (c, retain) (later_rest ∙ sym (miss rest e))
      ]
      | inl e ↦
          let hit = λ (xs : List Stored). find_stored-hit k key t v xs e in
          elim (Bool-cases (is_recent now (k, t, v))) [
            | inl c ↦ rw (c, retain) (ap (unexpired later) (hit (retain now rest) ∙ sym (hit rest)))
            | inr c ↦
                let expired : unexpired later (some (t, v)) ≡ none = ground (arith, c, le) in
                let unstored = find_stored-none key (retain now rest) (
                  holds-retain key now rest
                    (subst (λ x. holds x rest ≡ false) ((eq_iff k key).0 e) fresh)) in
                rw (c, retain)
                  (ap (unexpired later) unstored ∙ sym (ap (unexpired later) (hit rest) ∙ expired))
          ]
    ]

-- Storing a value keeps the map a map. From then on, its key is answered with that value for less
-- than 2000 ms and then no more, and every other key as if nothing had been stored: dropping the
-- entries of a cache that has grown past 1000 is never seen.
pub get_cached-set_cached :
    (now later : ℕ) (key val k : String) (cache : List Stored)
    → now ≤ later
    → IsMap cache
    → let stored = set_cached now key val cache in
      IsMap stored
      × (get_cached later k stored ≡ (
          if str_eq key k
          then (if ltb (later - now) user_cache_ttl_ms then some val else none)
          else get_cached later k cache))
unfolding set_cached get_cached
get_cached-set_cached now later key val k cache le h =
    let stored = put_stored key now val cache in
    let same = put_stored-IsMap key now val cache h in
    let answer : get_cached later k stored ≡ (
        if str_eq key k
        then (if ltb (later - now) user_cache_ttl_ms then some val else none)
        else get_cached later k cache) =
      ap (unexpired later) (find_stored-put_stored k key now val cache)
      ∙ elim (Bool-cases (str_eq key k)) [ inl e ↦ rw e | inr e ↦ rw e ] in
    elim (Bool-cases (ltb 1000 (length stored))) [
      | inl c ↦
          rw (c, set_cached)
            (retain-IsMap now stored same, get_cached-retain later now k stored le same ∙ answer)
      | inr c ↦ rw (c, set_cached) (same, answer)
    ]
