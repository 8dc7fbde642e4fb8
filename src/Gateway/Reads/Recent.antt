-- ===== src/Gateway/Reads/Recent.antt =====
-- How old the answers of list_orders and get_portfolio of crates/gateway/src/routes.rs can be.
use serverless_matching_engi.Prelude.{
  ℕ, ◌+◌, ◌-◌, ◌≤◌, ◌<◌, String, Bool, true, if◌then◌else◌, Option, none, some, subst, List, [],
  ◌∷◌, ◌≡◌, refl, sym, ◌∙◌, ◌⊎◌, str_eq, eq_iff, ltb, ltb→lt, length, arith, All, Bool-cases,
  Option-cases, inl, inr, ap,
}
use serverless_matching_engi.Gateway.UserCache.{
  Stored, user_cache_ttl_ms, find_stored, get_cached, put_stored, is_recent, retain, set_cached,
}
use serverless_matching_engi.Gateway.Reads.{
  or_default, read_view, orders_key, portfolio_key, no_orders, no_balances, list_orders,
  get_portfolio,
}

module _ (P : Stored → Type 0) where
  put_stored-All :
      (key : String) (ts : ℕ) (val : String) (cache : List Stored)
      → P (key, ts, val)
      → All P cache
      → All P (put_stored key ts val cache)
  unfolding put_stored
  put_stored-All key ts val [] p h = (p, tt)
  put_stored-All key ts val ((k, t, v) ∷ rest) p h = elim (Bool-cases (str_eq k key)) [
    | inl e ↦ rw (e, put_stored) (p, h.1)
    | inr e ↦ rw (e, put_stored) (h.0, put_stored-All key ts val rest p h.1)
  ]

  retain-All : (now : ℕ) (cache : List Stored) → All P cache → All P (retain now cache)
  unfolding retain
  retain-All now [] h = tt
  retain-All now (entry ∷ rest) h = elim (Bool-cases (is_recent now entry)) [
    | inl c ↦ rw (c, retain) (h.0, retain-All now rest h.1)
    | inr c ↦ rw (c, retain) (retain-All now rest h.1)
  ]

  set_cached-All :
      (now : ℕ) (key val : String) (cache : List Stored)
      → P (key, now, val)
      → All P cache
      → All P (set_cached now key val cache)
  unfolding set_cached
  set_cached-All now key val cache p h =
      let stored = put_stored key now val cache in
      let held = put_stored-All key now val cache p h in
      elim (Bool-cases (ltb 1000 (length stored))) [
        | inl c ↦ rw (c, set_cached) (retain-All now stored held)
        | inr c ↦ rw (c, set_cached) held
      ]

  find_stored-All :
      (key : String) (ts : ℕ) (val : String) (cache : List Stored)
      → find_stored key cache ≡ some (ts, val)
      → All P cache
      → P (key, ts, val)
  unfolding find_stored
  find_stored-All key ts val [] e h = absurd (ground arith)
  find_stored-All key ts val ((k, t, v) ∷ rest) e h = elim (Bool-cases (str_eq k key)) [
    | inl c ↦
        let here : k ≡ key = (eq_iff k key).0 c in
        let time : t ≡ ts = ground (arith, c, e) in
        let value : v ≡ val = ground (arith, c, e) in rw (sym here, sym time, sym value) h.0
    | inr c ↦ find_stored-All key ts val rest (ground (arith, c, e)) h.1
  ]

pub data View : Type 0 where
  orders portfolio : View

-- A request for a user if it names one: when it looks into the cache, when its GET is carried out,
-- whether that fails, and when its reply is there.
pub record Request : Type 0 where
  pub view : View
  pub user_id : Option String
  pub begin : ℕ
  pub read : ℕ
  pub failed : Bool
  pub end : ℕ

-- The key of a view and the answer for a user who has none.
abbrev pub key_of : View → Option String → String
key_of View.orders user_id = orders_key user_id
key_of View.portfolio user_id = portfolio_key user_id

abbrev pub default_of : View → String
default_of View.orders = no_orders
default_of View.portfolio = no_balances

-- Valkey over time: what GET finds for a key. A reply takes up to `delay` milliseconds.
module _ (found : ℕ → String → Option String) (delay : ℕ) where
  abbrev pub answer_to :
      View
      → (begin end : ℕ) (reply user_id : Option String) (seen cache : List Stored)
      → String × List Stored
  answer_to View.orders = list_orders
  answer_to View.portfolio = get_portfolio

  abbrev pub reply_to : Request → Option String
  reply_to r = if r.failed then none else found r.read (key_of r.view r.user_id)

  abbrev pub serve : Request → (seen cache : List Stored) → String × List Stored
  serve r = answer_to r.view r.begin r.end (reply_to r) r.user_id

  -- Requests in the order in which they end, each with the state of the cache that it looked into.
  abbrev pub serve_all : List (Request × List Stored) → List Stored → List Stored
  serve_all [] cache = cache
  serve_all ((r, seen) ∷ requests) cache = serve_all requests (serve r seen cache).1

  -- Valkey had the value for the key, less than 2000 ms and the time of a reply before.
  abbrev pub Recent : ℕ → String → String → Type 0
  Recent now key value =
      (t : ℕ) × (t ≤ now) × (now < t + user_cache_ttl_ms + delay) × (found t key ≡ some value)

  -- The default, and the GET failed or there is nothing to show; or what the GET finds, or a recent
  -- value.
  abbrev pub Answers : Request → String → Type 0
  Answers r answer =
      let key = key_of r.view r.user_id in
      ((answer ≡ default_of r.view)
        × ((r.failed ≡ true) ⊎ (or_default (found r.read key) "{}" ≡ "{}")))
      ⊎ ((found r.read key ≡ some answer) ⊎ Recent r.begin key answer)

  -- The request ended by the time `bound`, and its reply came in time.
  abbrev pub IsBefore : ℕ → Request → Type 0
  IsBefore bound r = (r.read ≤ r.end) × (r.end ≤ r.read + delay) × (r.end ≤ bound)

  -- What was stored at a time up to `bound` stood in Valkey not long before.
  abbrev Held : ℕ → Stored → Type 0
  Held bound (key, ts, val) =
      (ts ≤ bound) × ((t : ℕ) × (t ≤ ts) × (ts ≤ t + delay) × (found t key ≡ some val))

  module _ (begin end : ℕ) (reply : Option String) (key default : String)
      (seen cache : List Stored) where
    read_view-Held :
        (bound : ℕ)
        → ((val : String) → reply ≡ some val → Held bound (key, end, val))
        → All (Held bound) cache
        → All (Held bound) (read_view begin end reply key default seen cache).1
    unfolding read_view
    read_view-Held bound p h = elim (Option-cases (get_cached begin key seen)) [
      | inr (answer, e) ↦ rw (e, read_view) h
      | inl e ↦ elim (Option-cases reply) [
        | inl n ↦ rw (e, n, read_view) h
        | inr (val, n) ↦ elim (Bool-cases (str_eq val "{}")) [
          | inl c ↦ rw (e, n, c, read_view) h
          | inr c ↦
              rw (e, n, c, read_view) (set_cached-All (Held bound) end key val cache (p val n) h)
        ]
      ]
    ]

    -- The answer by the source that it has.
    read_view-source :
        let answer = (read_view begin end reply key default seen cache).0 in
        (get_cached begin key seen ≡ some answer)
        ⊎ ((reply ≡ some answer) ⊎ ((answer ≡ default) × (or_default reply "{}" ≡ "{}")))
    unfolding read_view
    read_view-source = elim (Option-cases (get_cached begin key seen)) [
      | inr (answer, e) ↦ rw (e, read_view) (inl refl)
      | inl e ↦ elim (Option-cases reply) [
        | inl n ↦ rw (e, n, read_view) (inr (inr (refl, refl)))
        | inr (val, n) ↦ elim (Bool-cases (str_eq val "{}")) [
          | inl c ↦ rw (e, n, c, read_view) (inr (inr (refl, (eq_iff val "{}").0 c)))
          | inr c ↦ rw (e, n, c, read_view) (inr (inl refl))
        ]
      ]
    ]

  get_cached-Recent :
      (now : ℕ) (key answer : String) (cache : List Stored)
      → get_cached now key cache ≡ some answer
      → All (Held now) cache
      → Recent now key answer
  unfolding get_cached
  get_cached-Recent now key answer cache e h = elim (Option-cases (find_stored key cache)) [
    | inl n ↦ absurd (ground (arith, n, e))
    | inr ((ts, val), n) ↦
        let (stored, (t, le, near, held)) = find_stored-All (Held now) key ts val cache n h in
        elim (Bool-cases (ltb (now - ts) user_cache_ttl_ms)) [
          | inl c ↦
              let same : val ≡ answer = ground (arith, n, e, c) in
              let young = ltb→lt (now - ts) user_cache_ttl_ms c in
              (
                t,
                omega (arith, le, stored),
                omega (arith, near, stored, young),
                held ∙ ap some same,
              )
          | inr c ↦ absurd (ground (arith, n, e, c))
        ]
  ]

  reply_to-Held :
      (bound : ℕ) (r : Request) (val : String)
      → IsBefore bound r
      → reply_to r ≡ some val
      → Held bound (key_of r.view r.user_id, r.end, val)
  reply_to-Held bound r val (le, near, by) e = elim (Bool-cases r.failed) [
    | inl c ↦ absurd (ground (arith, c, e))
    | inr c ↦ (by, (r.read, le, near, ground (arith, c, e)))
  ]

  serve-Held :
      (bound : ℕ) (r : Request) (seen cache : List Stored)
      → IsBefore bound r
      → All (Held bound) cache
      → All (Held bound) (serve r seen cache).1
  unfolding list_orders get_portfolio
  serve-Held bound r seen cache le h = by_view r.view refl
    where
      by_view :
          (view : View)
          → r.view ≡ view
          → All (Held bound) (answer_to view r.begin r.end (reply_to r) r.user_id seen cache).1
      by_view View.orders e =
          read_view-Held r.begin r.end (reply_to r) (orders_key r.user_id) no_orders seen cache
            bound
            (λ val n.
              subst (λ w. Held bound (key_of w r.user_id, r.end, val)) e
                (reply_to-Held bound r val le n))
            h
      by_view View.portfolio e =
          read_view-Held r.begin r.end (reply_to r) (portfolio_key r.user_id) no_balances seen cache
            bound
            (λ val n.
              subst (λ w. Held bound (key_of w r.user_id, r.end, val)) e
                (reply_to-Held bound r val le n))
            h

  serve_all-Held :
      (bound : ℕ) (requests : List (Request × List Stored)) (cache : List Stored)
      → All (λ earlier. IsBefore bound earlier.0) requests
      → All (Held bound) cache
      → All (Held bound) (serve_all requests cache)
  serve_all-Held bound [] cache le h = h
  serve_all-Held bound ((r, seen) ∷ requests) cache le h =
      serve_all-Held bound requests (serve r seen cache).1 le.1
        (serve-Held bound r seen cache le.0 h)

  -- By the source of an answer.
  Answers-source :
      (r : Request) (answer : String) (seen : List Stored)
      → All (Held r.begin) seen
      → (get_cached r.begin (key_of r.view r.user_id) seen ≡ some answer)
        ⊎ ((reply_to r ≡ some answer)
            ⊎ ((answer ≡ default_of r.view) × (or_default (reply_to r) "{}" ≡ "{}")))
      → Answers r answer
  Answers-source r answer seen h (inl e) =
      inr (inr (get_cached-Recent r.begin (key_of r.view r.user_id) answer seen e h))
  Answers-source r answer seen h (inr (inl e)) = elim (Bool-cases r.failed) [
    | inl c ↦ absurd (ground (arith, c, e))
    | inr c ↦ inr (inl (ground (arith, c, e)))
  ]
  Answers-source r answer seen h (inr (inr (same, empty))) = elim (Bool-cases r.failed) [
    | inl c ↦ inl (same, inl c)
    | inr c ↦ inl (same, inr (ground (arith, c, empty)))
  ]

  -- Let a request look into the cache after any other requests ended, each with a reply within the
  -- delay. Its answer is the value that Valkey had for the key of its user less than 2000 ms and the
  -- delay before it looked, or what its own GET finds; or it is the default, and then its GET failed
  -- or found no value or the empty object. What the others found in the cache does not matter.
  pub serve-Answers :
      (requests : List (Request × List Stored)) (r : Request) (cache : List Stored)
      → All (λ earlier. IsBefore r.begin earlier.0) requests
      → Answers r (serve r (serve_all requests []) cache).0
  unfolding list_orders get_portfolio
  serve-Answers requests r cache le =
      let seen = serve_all requests [] in
      let held = serve_all-Held r.begin requests [] le tt in
      Answers-source r (serve r seen cache).0 seen held (by_view r.view)
    where
      by_view :
          (view : View)
          → let answer =
              (answer_to view r.begin r.end
                (reply_to r)
                r.user_id
                (serve_all requests [])
                cache).0 in
            (get_cached r.begin (key_of view r.user_id) (serve_all requests []) ≡ some answer)
            ⊎ ((reply_to r ≡ some answer)
                ⊎ ((answer ≡ default_of view) × (or_default (reply_to r) "{}" ≡ "{}")))
      by_view View.orders =
          read_view-source r.begin r.end (reply_to r) (orders_key r.user_id) no_orders
            (serve_all requests []) cache
      by_view View.portfolio =
          read_view-source r.begin r.end (reply_to r) (portfolio_key r.user_id) no_balances
            (serve_all requests []) cache
