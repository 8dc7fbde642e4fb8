-- ===== src/Worker/Views/Whole.antt =====
-- process_order of crates/gateway/src/worker.rs with the refresh of the cached portfolios.
use serverless_matching_engi.Prelude.{
  ℕ, String, Bool, true, false, Option, some, List, ◌≡◌, refl, ap, sym, ◌∙◌, if◌then◌else◌,
  Bool-cases, inl, inr,
}
use serverless_matching_engi.Types.{Order, Trade, DateTime}
use serverless_matching_engi.Cache.Valkey.{Valkey}
use serverless_matching_engi.Worker.Message.{QueuedOrderMsg}
use serverless_matching_engi.Worker.Persist.{Tables}
use serverless_matching_engi.Worker.Process.{Context, World, Outcome, process_order}
use serverless_matching_engi.Worker.Process.Settles.{Settles, process_order-Settles}
use serverless_matching_engi.Worker.Views.{
  JsonPrinters, Levels, build_portfolio_json, refreshes, update_cache_after_processing, is_dirty,
  dirty_users,
}
use serverless_matching_engi.Worker.Views.Portfolio.{
  shown_portfolio, shown_portfolio-entries, update_cache_after_processing-portfolio,
}

module _ (json : JsonPrinters) (day : ℕ) (now : DateTime) (levels : Levels) (user : String) where
  -- The portfolio after the refresh, by how the call ends; a cancelled FOK order changes no view.
  abbrev pub cached_after : Outcome → Tables → Option String → Option String
  cached_after (Outcome.processed o ts) t old =
      shown_portfolio user (update_cache_after_processing json day now levels o ts t) old
  cached_after (Outcome.failed e) t old = old
  cached_after (Outcome.fok_cancelled o) t old = old

  abbrev pub is_refreshed : Outcome → Bool
  is_refreshed (Outcome.processed o ts) = refreshes o ts
  is_refreshed _ = false

  abbrev pub portfolio_at : Tables → Option String
  portfolio_at t = some (build_portfolio_json json user t.balances)

  unchanged_lem :
      (o : Order) (ts : List Trade) (t : Tables)
      → refreshes o ts ≡ true
      → cached_after (Outcome.processed o ts) t (portfolio_at t) ≡ portfolio_at t
  unfolding update_cache_after_processing
  unchanged_lem o ts t r =
      rw (r, update_cache_after_processing)
        (shown_portfolio-entries user json (dirty_users o ts) t.balances (portfolio_at t)
          ∙ elim (Bool-cases (is_dirty user (dirty_users o ts))) [ inl c ↦ rw c | inr c ↦ rw c ])

  module _ (v : Valkey) (f : ℕ → String) (ctx : Context) where
    refreshed_lem :
        (o : Order) (ts : List Trade) (t t' : Tables)
        → refreshes o ts ≡ true
        → Settles v f ctx t (Outcome.processed o ts) t'
        → cached_after (Outcome.processed o ts) t' (portfolio_at t) ≡ portfolio_at t'
    refreshed_lem o ts t t' c (inl same) =
        ap (λ x. cached_after (Outcome.processed o ts) x (portfolio_at t)) same
        ∙ unchanged_lem o ts t c
        ∙ sym (ap portfolio_at same)
    refreshed_lem o ts t t' c (inr (fills, e)) =
        update_cache_after_processing-portfolio json day now ctx.now levels ctx.cost ctx.increment o
          ts fills t t' user e c

    skipped_lem :
        (o : Order) (ts : List Trade) (t t' : Tables)
        → refreshes o ts ≡ false
        → cached_after (Outcome.processed o ts) t' (portfolio_at t) ≡ portfolio_at t
    unfolding update_cache_after_processing
    skipped_lem o ts t t' c = rw (c, update_cache_after_processing) refl

    cached_after-Settles :
        (t t' : Tables) (out : Outcome)
        → Settles v f ctx t out t'
        → cached_after out t' (portfolio_at t) ≡ portfolio_at (if is_refreshed out then t' else t)
    cached_after-Settles t t' (Outcome.failed e) s = refl
    cached_after-Settles t t' (Outcome.fok_cancelled o) s = refl
    cached_after-Settles t t' (Outcome.processed o ts) s =
        let which = λ (b : Bool). portfolio_at (if b then t' else t) in
        elim (Bool-cases (refreshes o ts)) [
          | inr c ↦ skipped_lem o ts t t' c ∙ ap which (sym c)
          | inl c ↦ refreshed_lem o ts t t' c s ∙ ap which (sym c)
        ]

    -- Whatever the message, if the cached portfolio of a user showed the user's balances before the
    -- call, it shows the new balances after it and the refresh, if the message was processed and
    -- there was a trade or the order rests; otherwise it still shows the old ones.
    pub process_order-portfolio :
        (msg : QueuedOrderMsg) (w : World v f ctx)
        → let (out, w') = process_order v f ctx msg w in
          cached_after out w'.tables (portfolio_at w.tables)
          ≡ portfolio_at (if is_refreshed out then w'.tables else w.tables)
    process_order-portfolio msg w =
        let (out, w') = process_order v f ctx msg w in
        cached_after-Settles w.tables w'.tables out (process_order-Settles v f ctx msg w)
