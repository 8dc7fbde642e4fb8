-- ===== src/Cache/Snapshot/Levels.antt =====
-- The levels that ORDERBOOK_SNAPSHOT_LUA of crates/shared/src/cache.rs adds up.
use Prim.Native.String.{◌++◌ as append}
use serverless_matching_engi.Prelude.{
  ℕ, ◌+◌, ◌<◌, String, false, Option, none, some, List, [], ◌∷◌, ◌≡◌, refl, arith, ltb, str_eq,
  eq_iff, if◌then◌else◌, All, sum_by, Bool-cases, inl, inr,
}
use serverless_matching_engi.Prelude.Int.{pos_part}
use serverless_matching_engi.Cache.Valkey.{Valkey}
use serverless_matching_engi.Cache.Script.{number_or_zero}
use serverless_matching_engi.Cache.Snapshot.{
  Level, add_level, level_if, add_some, level_of, collect, top_ids, aggregate_side,
}

-- The quantity at a price.
abbrev pub quantity_at : String → List Level → ℕ
quantity_at p = sum_by (λ (level : Level). if str_eq level.0 p then level.1 else 0)

-- No price is listed twice, and nothing is listed with the quantity 0.
abbrev pub AreLevels : List Level → Type 0
AreLevels [] = Unit
AreLevels (l ∷ levels) =
    (0 < l.1) × All (λ (m : Level). str_eq m.0 l.0 ≡ false) levels × AreLevels levels

abbrev amount : String → Option Level → ℕ
amount p none = 0
amount p (some (q, r)) = if str_eq q p then r else 0

quantity_at-add_level :
    (p q : String) (r : ℕ) (levels : List Level)
    → quantity_at p (add_level q r levels) ≡ quantity_at p levels + (if str_eq q p then r else 0)
unfolding add_level
quantity_at-add_level p q r [] = ground arith
quantity_at-add_level p q r ((a, total) ∷ levels) =
    ground (arith, quantity_at-add_level p q r levels, eq_iff a q)

All-add_level :
    (b p : String) (r : ℕ) (levels : List Level)
    → str_eq p b ≡ false
    → All (λ (m : Level). str_eq m.0 b ≡ false) levels
    → All (λ (m : Level). str_eq m.0 b ≡ false) (add_level p r levels)
unfolding add_level
All-add_level b p r [] e h = (e, tt)
All-add_level b p r ((a, total) ∷ levels) e h = elim (Bool-cases (str_eq a p)) [
  | inl f ↦ rw (f, add_level) (h.0, h.1)
  | inr f ↦ rw (f, add_level) (h.0, All-add_level b p r levels e h.1)
]

add_level-AreLevels :
    (p : String) (r : ℕ) (levels : List Level)
    → 0 < r
    → AreLevels levels
    → AreLevels (add_level p r levels)
unfolding add_level
add_level-AreLevels p r [] h k = (h, tt, tt)
add_level-AreLevels p r ((a, total) ∷ levels) h k = elim (Bool-cases (str_eq a p)) [
  | inl f ↦ rw (f, add_level) (omega (arith, h), k.1, k.2)
  | inr f ↦
      rw (f, add_level)
        (
          k.0,
          All-add_level a p r levels (ground (arith, eq_iff a p, eq_iff p a)) k.1,
          add_level-AreLevels p r levels h k.2,
        )
]

-- What is left at a price of an order with these two fields.
abbrev resting : String → Option String → Option String → ℕ
resting p none ri = 0
resting p (some pi) ri = if str_eq pi p then pos_part (number_or_zero ri) else 0

amount-level_if : (p : String) (pi ri : Option String) → amount p (level_if pi ri) ≡ resting p pi ri
amount-level_if p none ri = refl
amount-level_if p (some pi) none = ground arith
amount-level_if p (some pi) (some ri) = ground arith

quantity_at-add_some :
    (p : String) (pi ri : Option String) (levels : List Level)
    → quantity_at p (add_some (level_if pi ri) levels) ≡ quantity_at p levels + resting p pi ri
quantity_at-add_some p pi ri levels = go (level_if pi ri) (amount-level_if p pi ri)
  where
    go :
        (l : Option Level)
        → amount p l ≡ resting p pi ri
        → quantity_at p (add_some l levels) ≡ quantity_at p levels + resting p pi ri
    go none e = omega (arith, e)
    go (some (q, r)) e = omega (arith, e, quantity_at-add_level p q r levels)

add_some-AreLevels :
    (pi ri : Option String) (levels : List Level)
    → AreLevels levels
    → AreLevels (add_some (level_if pi ri) levels)
add_some-AreLevels none ri levels k = k
add_some-AreLevels (some pi) none levels k = k
add_some-AreLevels (some pi) (some ri) levels k =
    let r = pos_part (number_or_zero (some ri)) in
    elim (Bool-cases (ltb 0 r)) [
      | inl e ↦ rw (e, level_if) (add_level-AreLevels pi r levels (ground arith) k)
      | inr e ↦ rw (e, level_if) k
    ]

module _ (v : Valkey) where
  -- What is left of an order that has the price text.
  abbrev pub resting_at : String → v.Db → String → ℕ
  resting_at p db id =
      resting p (v.hget (append "order:" id) "price_i" db)
        (v.hget (append "order:" id) "remaining_i" db)

  quantity_at-collect :
      (p : String) (ids : List String) (db : v.Db) (levels : List Level)
      → quantity_at p (collect v ids db levels)
        ≡ quantity_at p levels + sum_by (resting_at p db) ids
  unfolding collect
  quantity_at-collect p [] db levels = omega arith
  quantity_at-collect p (id ∷ ids) db levels = omega (
    arith,
    quantity_at-collect p ids db (add_some (level_of v id db) levels),
    quantity_at-add_some p (v.hget (append "order:" id) "price_i" db)
        (v.hget (append "order:" id) "remaining_i" db) levels,
  )

  collect-AreLevels :
      (ids : List String) (db : v.Db) (levels : List Level)
      → AreLevels levels
      → AreLevels (collect v ids db levels)
  unfolding collect
  collect-AreLevels [] db levels k = k
  collect-AreLevels (id ∷ ids) db levels k =
      collect-AreLevels ids db (add_some (level_of v id db) levels) (
        add_some-AreLevels (v.hget (append "order:" id) "price_i" db)
          (v.hget (append "order:" id) "remaining_i" db) levels k)

  -- The levels of a side list no price twice and none with nothing, and the quantity at every price
  -- is what is left of the orders with that price among those that were fetched.
  pub aggregate_side-AreLevels :
      (key : String) (limit : ℕ) (db : v.Db)
      → AreLevels (aggregate_side v key limit db)
        × ((p : String)
            → quantity_at p (aggregate_side v key limit db)
              ≡ sum_by (resting_at p db) (top_ids v key limit db))
  unfolding aggregate_side
  aggregate_side-AreLevels key limit db = (
    collect-AreLevels (top_ids v key limit db) db [] tt,
    λ p. omega (arith, quantity_at-collect p (top_ids v key limit db) db []),
  )
