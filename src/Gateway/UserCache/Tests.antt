-- ===== src/Gateway/UserCache/Tests.antt =====
-- The cache of a user's answers at inputs.
use serverless_matching_engi.Prelude.{
  none, some, List, [], ◌∷◌, ◌≡◌, refl, if◌then◌else◌, ltb, str_eq, ◌-◌, arith,
}
use serverless_matching_engi.Gateway.UserCache.{
  Stored, get_cached, set_cached, put_stored, find_stored, user_cache_ttl_ms,
}
use serverless_matching_engi.Gateway.UserCache.Lookup.{IsMap, get_cached-set_cached}

abbrev cache : List Stored
cache = ("orders:alice", 100, "[]") ∷ ("portfolio:alice", 900, "{}") ∷ []

-- The old answer for the other key has expired by then.
answers : get_cached 2500 "orders:alice" (set_cached 1000 "portfolio:alice" "new" cache) ≡ none
unfolding get_cached set_cached put_stored find_stored
answers = refl

get_cached-set_cached_example :
    let stored = set_cached 1000 "portfolio:alice" "new" cache in
    IsMap stored
    × (get_cached 2500 "portfolio:alice" stored ≡ (
        if str_eq "portfolio:alice" "portfolio:alice"
        then (if ltb (2500 - 1000) user_cache_ttl_ms then some "new" else none)
        else get_cached 2500 "portfolio:alice" cache))
get_cached-set_cached_example =
    get_cached-set_cached 1000 2500 "portfolio:alice" "new" "portfolio:alice" cache (omega arith)
      (refl, (refl, tt))
