-- ===== src/Cache/Snapshot/Reply.antt =====
-- The reply of ORDERBOOK_SNAPSHOT_LUA as orderbook_snapshot_lua of crates/shared/src/cache.rs reads it.
use Prim.Native.String.{◌++◌ as append}
use serverless_matching_engi.Prelude.{
  ℕ, suc, ◌*◌, ◌<◌, String, true, List, ◌++◌, ◌≡◌, length, map, All,
}
use serverless_matching_engi.Prelude.Int.{ℤ, pos, negsuc, sub_ℕ}
use serverless_matching_engi.Text.{print_i64, in_i64}
use serverless_matching_engi.Types.{Decimal}
use serverless_matching_engi.Cache.Scale.{unit}
use serverless_matching_engi.Cache.Valkey.{Valkey}
use serverless_matching_engi.Cache.Match.Reply.{exact}
use serverless_matching_engi.Cache.Snapshot.{Level}

-- The levels of a side whose prices are kept as texts of whole numbers of units of 10^-8.
abbrev pub stored : List (ℤ × ℕ) → List Level
stored = map (λ (l : ℤ × ℕ). (print_i64 l.0, l.1))

-- Each price fits an `i64`, and the numbers of units and of levels are printed in full.
abbrev pub AreExact : List (ℤ × ℕ) → Type 0
AreExact levels =
    (length levels < exact) × All (λ (l : ℤ × ℕ). (in_i64 l.0 ≡ true) × (l.1 < exact)) levels

-- A number of units of 10^-8 as a decimal number, with its sign and without.
abbrev pub signed : ℤ → Decimal
signed (pos n) = pos (n * unit)
signed (negsuc n) = sub_ℕ 0 (suc n * unit)

abbrev pub unsigned : ℤ → Decimal
unsigned (pos n) = pos (n * unit)
unsigned (negsuc n) = pos (suc n * unit)

module _ (f : ℕ → String) (show : Decimal → String) where
  -- The texts that are shown for a level.
  abbrev pub shown : (ℤ → Decimal) → ℤ × ℕ → String × String
  shown price l = (show (price l.0), show (pos (l.1 * unit)))
