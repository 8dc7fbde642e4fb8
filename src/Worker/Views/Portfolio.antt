-- ===== src/Worker/Views/Portfolio.antt =====
-- The cached portfolios after an order was settled and the views refreshed, in
-- crates/gateway/src/worker.rs.
use serverless_matching_engi.Prelude.{
  ℕ, ◌==◌, String, Bool, true, false, ◌&&◌, ◌||◌, not, Option, some, List, [], ◌∷◌, ◌++◌, map, ◌≡◌,
  refl, sym, ap, ◌∙◌, str_eq, eq_iff, if◌then◌else◌, arith, Bool-cases, Option-cases, inl, inr,
}
use serverless_matching_engi.Prelude.Int.{ℤ}
use serverless_matching_engi.Types.{Order, Trade, DateTime, Decimal, Quantity}
use serverless_matching_engi.Types.Pair.{parse_pair_id}
use serverless_matching_engi.Worker.Persist.{
  Balance, Tables, Fill, persist_order, closes, leftover, release_row,
}
use serverless_matching_engi.Worker.Persist.Settle.{
  after_trades, after_release, persist_order-balances, paid, received,
}
use serverless_matching_engi.Worker.Views.{
  CachedView, Levels, JsonPrinters, balances_of, by_asset, build_portfolio_json, is_dirty,
  mark_dirty, mark_parties, dirty_users, refreshes, portfolio_entries,
  update_cache_after_processing,
}

-- The value of a user's portfolio after a batch of views is written.
abbrev pub shown_portfolio : String → List (CachedView × String) → Option String → Option String
shown_portfolio user [] old = old
shown_portfolio user ((CachedView.portfolio u, text) ∷ batch) old =
    shown_portfolio user batch (if str_eq u user then some text else old)
shown_portfolio user ((CachedView.orderbook pair, text) ∷ batch) old =
    shown_portfolio user batch old
shown_portfolio user ((CachedView.trades pair, text) ∷ batch) old = shown_portfolio user batch old
shown_portfolio user ((CachedView.ticker pair, text) ∷ batch) old = shown_portfolio user batch old

module _ (user : String) where
  is_dirty-append :
      (us : List String) (u : String)
      → is_dirty user (us ++ u ∷ []) ≡ (is_dirty user us || str_eq u user)
  is_dirty-append [] u = ground arith
  is_dirty-append (w ∷ us) u = ground (arith, is_dirty-append us u)

  is_dirty-mark_dirty :
      (u : String) (us : List String)
      → is_dirty user (mark_dirty u us) ≡ (str_eq u user || is_dirty user us)
  is_dirty-mark_dirty u us = elim (Bool-cases (is_dirty u us)) [
    | inl c ↦
        let agree : str_eq u user ≡ true → is_dirty user us ≡ true =
          λ e. ap (λ x. is_dirty x us) (sym ((eq_iff u user).0 e)) ∙ c in
        rw c (ground (arith, agree))
    | inr c ↦ rw c (is_dirty-append us u ∙ ground arith)
  ]

  -- A user who is in none of the trades.
  abbrev is_party : List Trade → Bool
  is_party [] = false
  is_party (t ∷ ts) = (str_eq t.buyer_id user || str_eq t.seller_id user) || is_party ts

  is_dirty-mark_parties :
      (ts : List Trade) (us : List String)
      → is_dirty user (mark_parties ts us) ≡ (is_party ts || is_dirty user us)
  unfolding mark_parties
  is_dirty-mark_parties [] us = refl
  is_dirty-mark_parties (t ∷ ts) us =
      is_dirty-mark_parties ts (mark_dirty t.seller_id (mark_dirty t.buyer_id us))
      ∙ ground (
        arith,
        is_dirty-mark_dirty t.seller_id (mark_dirty t.buyer_id us),
        is_dirty-mark_dirty t.buyer_id us,
      )

  is_dirty-dirty_users :
      (o : Order) (ts : List Trade)
      → is_dirty user (dirty_users o ts) ≡ (is_party ts || str_eq o.user_id user)
  unfolding dirty_users
  is_dirty-dirty_users o ts = is_dirty-mark_parties ts (mark_dirty o.user_id []) ∙ ground arith

  module _ (mul : Decimal → Quantity → ℕ) where
    -- Who is in no trade pays and receives nothing.
    paid-none :
        (asset : String) (ts : List Trade)
        → is_party ts ≡ false
        → (paid user asset mul ts ≡ 0) × (received user asset mul ts ≡ 0)
    paid-none asset [] h = (refl, refl)
    paid-none asset (t ∷ ts) h = elim (Option-cases (parse_pair_id t.pair_id)) [
      | inl e ↦ rw e (ground (arith, paid-none asset ts))
      | inr ((base, quote), e) ↦ rw e (ground (arith, paid-none asset ts))
    ]

    after_trades-none :
        (ts : List Trade) (b : Balance)
        → str_eq b.user_id user ≡ true
        → is_party ts ≡ false
        → after_trades mul ts b ≡ b
    after_trades-none ts b e h =
        let same = (eq_iff b.user_id user).0 e in
        let nothing = paid-none b.asset ts h in
        let pay : paid b.user_id b.asset mul ts ≡ 0 =
          ap (λ u. paid u b.asset mul ts) same ∙ nothing.0 in
        let get : received b.user_id b.asset mul ts ≡ 0 =
          ap (λ u. received u b.asset mul ts) same ∙ nothing.1 in
        ground (arith, pay, get)

    release_row-none :
        (owner asset : String) (amount : ℕ) (b : Balance)
        → str_eq b.user_id user ≡ true
        → str_eq owner user ≡ false
        → release_row owner asset amount b ≡ b
    release_row-none owner asset amount b e h =
        ground (arith, e, h, eq_iff b.user_id user, eq_iff owner user, eq_iff b.user_id owner)

    after_release-none :
        (o : Order) (b : Balance)
        → str_eq b.user_id user ≡ true
        → str_eq o.user_id user ≡ false
        → after_release mul o b ≡ b
    after_release-none o b e h = elim (Bool-cases (closes o.status && not (o.remaining == 0))) [
      | inr c ↦ rw c
      | inl c ↦ elim (Option-cases (parse_pair_id o.pair_id)) [
        | inl n ↦ rw (c, n)
        | inr ((base, quote), n) ↦
            rw (c, n)
              (release_row-none o.user_id (leftover mul base quote o).0
                (leftover mul base quote o).1 b e h)
      ]
    ]

  balances_of-map :
      (g : Balance → Balance)
      → ((b : Balance) → (g b).user_id ≡ b.user_id)
      → ((b : Balance) → str_eq b.user_id user ≡ true → g b ≡ b)
      → (rows : List Balance) → balances_of user (map g rows) ≡ balances_of user rows
  balances_of-map g keeps same [] = refl
  balances_of-map g keeps same (b ∷ rows) = elim (Bool-cases (str_eq b.user_id user)) [
    | inl c ↦ rw (same b c, c, balances_of-map g keeps same rows)
    | inr c ↦ rw (keeps b, c, balances_of-map g keeps same rows)
  ]

  after_release-user_id :
      (mul : Decimal → Quantity → ℕ) (o : Order) (b : Balance)
      → (after_release mul o b).user_id ≡ b.user_id
  after_release-user_id mul o b = elim (Bool-cases (closes o.status && not (o.remaining == 0))) [
    | inr c ↦ rw c
    | inl c ↦ elim (Option-cases (parse_pair_id o.pair_id)) [
      | inl n ↦ rw (c, n)
      | inr ((base, quote), n) ↦ rw (c, n) (ground arith)
    ]
  ]

  pub shown_portfolio-entries :
      (json : JsonPrinters) (users : List String) (rows : List Balance) (old : Option String)
      → shown_portfolio user (portfolio_entries json users rows) old
        ≡ (if is_dirty user users then some (build_portfolio_json json user rows) else old)
  shown_portfolio-entries json [] rows old = refl
  shown_portfolio-entries json (u ∷ users) rows old =
      let text = λ (x : String). some (build_portfolio_json json x rows) in
      let same : str_eq u user ≡ true → text u ≡ text user = λ c. ap text ((eq_iff u user).0 c) in
      shown_portfolio-entries json users rows (if str_eq u user then text u else old)
      ∙ ground (arith, same)

  -- A user whose portfolio is not written again has the rows of before.
  build_portfolio_json-none :
      (json : JsonPrinters) (mul : Decimal → Quantity → ℕ) (o : Order) (ts : List Trade)
      (rows : List Balance)
      → is_dirty user (dirty_users o ts) ≡ false
      → build_portfolio_json json user (map (λ b. after_release mul o (after_trades mul ts b)) rows)
        ≡ build_portfolio_json json user rows
  unfolding build_portfolio_json
  build_portfolio_json-none json mul o ts rows h =
      let who : (is_party ts ≡ false) × (str_eq o.user_id user ≡ false) =
        ground (arith, h, is_dirty-dirty_users o ts) in
      ap (λ bs. json.portfolio (by_asset bs))
        (balances_of-map (λ b. after_release mul o (after_trades mul ts b))
          (λ b. after_release-user_id mul o (after_trades mul ts b))
          (λ b e.
            ap (after_release mul o) (after_trades-none mul ts b e who.0)
            ∙ after_release-none mul o b e who.1)
          rows)

-- After an order is settled, if the refresh goes on, which it does if there was a trade or the order
-- rests: the cached portfolio of every user shows the user's new balances, if it showed the old
-- ones before.
pub update_cache_after_processing-portfolio :
    (json : JsonPrinters) (day : ℕ) (now time : DateTime) (levels : Levels)
    (mul : Decimal → Quantity → ℕ) (increment : ℤ → ℤ) (o : Order) (ts : List Trade)
    (fills : List Fill) (t t' : Tables) (user : String)
    → persist_order mul increment time o ts fills t ≡ some t'
    → refreshes o ts ≡ true
    → shown_portfolio user
        (update_cache_after_processing json day now levels o ts t')
        (some (build_portfolio_json json user t.balances))
      ≡ some (build_portfolio_json json user t'.balances)
unfolding update_cache_after_processing
update_cache_after_processing-portfolio json day now time levels mul increment o ts fills t t' user
      h r =
    let old = some (build_portfolio_json json user t.balances) in
    rw (r, update_cache_after_processing)
      (shown_portfolio-entries user json (dirty_users o ts) t'.balances old
        ∙ elim (Bool-cases (is_dirty user (dirty_users o ts))) [
          | inl c ↦ rw c
          | inr c ↦ rw c (
              ap some (sym (build_portfolio_json-none user json mul o ts t.balances c))
              ∙ ap (λ rows. some (build_portfolio_json json user rows))
                  (sym (persist_order-balances mul increment time o ts fills t t' h)))
        ])
