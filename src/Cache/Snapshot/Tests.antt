-- ===== src/Cache/Snapshot/Tests.antt =====
-- A snapshot of a book of three bids, two at one price, and no ask.
use serverless_matching_engi.Prelude.{ℕ, ◌/◌, String, List, [], ◌∷◌, ◌≡◌, refl, sum_by}
use serverless_matching_engi.Prelude.Int.{ℤ, pos, pos_part}
use serverless_matching_engi.Text.{
  print_i64, print_digits, parse_i64, parse_digits, parse_magnitude,
}
use serverless_matching_engi.Types.{Decimal}
use serverless_matching_engi.Cache.Scale.{unit, i64_to_decimal}
use serverless_matching_engi.Cache.Memory.{Memory, memory}
use serverless_matching_engi.Cache.Script.{tostring}
use serverless_matching_engi.Cache.Snapshot.{
  add_level, collect, top_ids, aggregate_side, take_levels, level_texts, side_reply,
  snapshot_script, parse_snapshot, orderbook_snapshot_lua,
}
use serverless_matching_engi.Cache.Snapshot.Levels.{
  AreLevels, quantity_at, resting_at, aggregate_side-AreLevels,
}

abbrev exponent : ℕ → String
exponent n = ""

-- Whole units of 10^-8, printed.
abbrev show : Decimal → String
show d = print_i64 (pos (pos_part d / unit))

abbrev book : Memory
book = record {
  entries =
      ("order:a", "price_i", "700")
      ∷ ("order:a", "remaining_i", "4")
      ∷ ("order:b", "price_i", "700")
      ∷ ("order:b", "remaining_i", "5")
      ∷ ("order:c", "price_i", "600")
      ∷ ("order:c", "remaining_i", "6")
      ∷ [];
  members =
      ("book:ETH-USDT:bids", pos 1, "a")
      ∷ ("book:ETH-USDT:bids", pos 1, "b")
      ∷ ("book:ETH-USDT:bids", pos 2, "c")
      ∷ [];
  texts = [];
}

two_levels :
    orderbook_snapshot_lua exponent memory show "ETH-USDT" 50 book
    ≡ (("700", "9") ∷ ("600", "6") ∷ [], [])
unfolding orderbook_snapshot_lua parse_snapshot snapshot_script side_reply level_texts take_levels
    aggregate_side top_ids collect add_level tostring i64_to_decimal print_i64 print_digits
    parse_i64 parse_digits parse_magnitude
two_levels = refl

aggregate_side-AreLevels_example :
    AreLevels (aggregate_side memory "book:ETH-USDT:bids" 50 book)
    × ((p : String)
        → quantity_at p (aggregate_side memory "book:ETH-USDT:bids" 50 book)
          ≡ sum_by (resting_at memory p book) (top_ids memory "book:ETH-USDT:bids" 50 book))
aggregate_side-AreLevels_example = aggregate_side-AreLevels memory "book:ETH-USDT:bids" 50 book

abbrev bid_levels : List (ℤ × ℕ)
bid_levels = (pos 700, 9) ∷ (pos 600, 6) ∷ []
