-- ===== src/Worker/Process/Rows.antt =====
-- What process_order does to the rows of `balances`, whichever way it ends.
use serverless_matching_engi.Prelude.{
  ℕ, ◌≤◌, String, ◌≡◌, refl, ◌∙◌, some, List, [], ◌∷◌, map, arith, Option-cases, Bool-cases, inl,
  inr, ◌&&◌, ◌==◌, not, All,
}
use serverless_matching_engi.Prelude.Int.{ℤ, pos, ◌≤ℤ◌}
use serverless_matching_engi.Types.{Order, Trade, Decimal, Quantity, DateTime}
use serverless_matching_engi.Types.Pair.{parse_pair_id}
use serverless_matching_engi.Cache.Valkey.{Valkey}
use serverless_matching_engi.Worker.Message.{QueuedOrderMsg}
use serverless_matching_engi.Worker.Persist.{
  Balance, closes, release_row, leftover, persist_order, Tables, Fill,
}
use serverless_matching_engi.Worker.Persist.Settle.{
  after_trades, after_release, persist_order-balances,
}
use serverless_matching_engi.Worker.Persist.Release.{IsPriced}
use serverless_matching_engi.Worker.Process.Settles.{Settles, process_order-Settles}
use serverless_matching_engi.Worker.Process.{Context, World, Outcome, process_order}

-- The row of the same user and asset, with no less available and no more locked.
abbrev pub Gives : Balance → Balance → Type 0
Gives b c =
    (c.user_id ≡ b.user_id)
    × (c.asset ≡ b.asset)
    × (b.available ≤ c.available)
    × (c.locked ≤ b.locked)

abbrev pub AllGive : List Balance → List Balance → Type 0
AllGive [] [] = Unit
AllGive (b ∷ bs) (c ∷ cs) = Gives b c × AllGive bs cs
AllGive [] (c ∷ cs) = ⊥
AllGive (b ∷ bs) [] = ⊥

Gives-refl : (b : Balance) → Gives b b
Gives-refl b = (refl, refl, omega arith, omega arith)

AllGive-refl : (bs : List Balance) → AllGive bs bs
AllGive-refl [] = tt
AllGive-refl (b ∷ bs) = (Gives-refl b, AllGive-refl bs)

Gives-trans : (a b c : Balance) → Gives a b → Gives b c → Gives a c
Gives-trans a b c (u, v, x, y) (u', v', x', y') = (u' ∙ u, v' ∙ v, omega (arith), omega (arith))

AllGive-map :
    (g : Balance → Balance)
    → ((b : Balance) → Gives b (g b))
    → (bs : List Balance) → AllGive bs (map g bs)
AllGive-map g hg [] = tt
AllGive-map g hg (b ∷ bs) = (hg b, AllGive-map g hg bs)

release_row-Gives :
    (user asset : String) (amount : ℕ) (b : Balance) → Gives b (release_row user asset amount b)
release_row-Gives user asset amount b = ground arith

after_trades-Gives :
    (mul : Decimal → Quantity → ℕ) (ts : List Trade) (b : Balance) → Gives b (after_trades mul ts b)
after_trades-Gives mul ts b = ground arith

after_release-Gives :
    (mul : Decimal → Quantity → ℕ) (o : Order) (b : Balance) → Gives b (after_release mul o b)
after_release-Gives mul o b = elim (Bool-cases (closes o.status && not (o.remaining == 0))) [
  | inr c ↦ rw c (Gives-refl b)
  | inl c ↦ elim (Option-cases (parse_pair_id o.pair_id)) [
    | inl e ↦ rw (c, e) (Gives-refl b)
    | inr ((base, quote), e) ↦
        rw (c, e)
          (release_row-Gives o.user_id (leftover mul base quote o).0 (leftover mul base quote o).1
            b)
  ]
]

persist_order-AllGive :
    (mul : Decimal → Quantity → ℕ) (increment : ℤ → ℤ) (now : DateTime) (o : Order)
    (ts : List Trade) (fills : List Fill) (t t' : Tables)
    → persist_order mul increment now o ts fills t ≡ some t'
    → AllGive t.balances t'.balances
persist_order-AllGive mul increment now o ts fills t t' h =
    rw (persist_order-balances mul increment now o ts fills t t' h) (
      AllGive-map (λ b. after_release mul o (after_trades mul ts b))
        (λ b.
          Gives-trans b (after_trades mul ts b) (after_release mul o (after_trades mul ts b))
            (after_trades-Gives mul ts b) (after_release-Gives mul o (after_trades mul ts b)))
        t.balances)

-- No price of the order or of a trade that a call ends with is below 0.
abbrev pub HasPrices : Outcome → Type 0
HasPrices (Outcome.failed e) = Unit
HasPrices (Outcome.fok_cancelled o) = IsPriced o.price
HasPrices (Outcome.processed o ts) = IsPriced o.price × All (λ t. pos 0 ≤ℤ t.price) ts

module _ (v : Valkey) (f : ℕ → String) (ctx : Context) where
  Settles-AllGive :
      (t t' : Tables) (out : Outcome) → Settles v f ctx t out t' → AllGive t.balances t'.balances
  Settles-AllGive t t' (Outcome.failed e) same = rw same (AllGive-refl t.balances)
  Settles-AllGive t t' (Outcome.fok_cancelled o) same = rw same (AllGive-refl t.balances)
  Settles-AllGive t t' (Outcome.processed o ts) (inl same) = rw same (AllGive-refl t.balances)
  Settles-AllGive t t' (Outcome.processed o ts) (inr (fills, e)) =
      persist_order-AllGive ctx.cost ctx.increment ctx.now o ts fills t t' e

  -- Whatever the message, if no row is below 0 and the call does not end with a price below 0, of
  -- the order or of a trade: the rows of the balances stay the same rows in the same order, and in
  -- each of them what is available is no less than before and what is locked no more.
  pub process_order-AllGive :
      (msg : QueuedOrderMsg) (w : World v f ctx)
      → HasPrices (process_order v f ctx msg w).0
      → AllGive w.tables.balances (process_order v f ctx msg w).1.tables.balances
  process_order-AllGive msg w priced =
      let (out, w') = process_order v f ctx msg w in
      Settles-AllGive w.tables w'.tables out (process_order-Settles v f ctx msg w)
