-- ===== src/Cache/Match/Reply.antt =====
-- The script's reply as the Rust side reads it.
use serverless_matching_engi.Prelude.{
  ℕ, suc, ◌*◌, ◌^◌, ◌≤◌, ◌<◌, String, Bool, true, false, ◌≡◌, refl, none, some, List, [], ◌∷◌, map,
  All, arith, length, ltb, lt→ltb, ◌≢◌,
}
use serverless_matching_engi.Prelude.Int.{ℤ, pos, negsuc}
use serverless_matching_engi.Types.{OrderStatus, Uuid}
use serverless_matching_engi.Text.{parse_i64}
use serverless_matching_engi.Text.Laws.{parse_i64-print_i64}
use serverless_matching_engi.Cache.Scale.{i64_to_decimal}
use serverless_matching_engi.Cache.Crates.{Crates}
use serverless_matching_engi.Cache.Fields.{quantity_of, status_char}
use serverless_matching_engi.Cache.Valkey.{Valkey}
use serverless_matching_engi.Cache.Script.{
  Argv, ScriptState, ScriptTrade, tostring, trade_texts, result, final_status,
}
use serverless_matching_engi.Cache.Match.{
  LuaTrade, LuaMatchResult, ok, parse_trade, parse_trades, parse_result, parse_reply, script_status,
  parse_or_zero, count_or_zero,
}

-- The numbers that `tostring` prints digit by digit.
abbrev pub exact : ℕ
exact = 10 ^ 14

ltb_self : (n : ℕ) → ltb n n ≡ false
ltb_self n = ground arith

-- A whole number that `tostring` prints digit by digit.
abbrev pub is_exact : ℤ → Bool
is_exact (pos n) = ltb n exact
is_exact (negsuc n) = ltb (suc n) exact

pub parse_i64-tostring :
    (exponent_form : ℕ → String) (i : ℤ)
    → is_exact i ≡ true
    → parse_i64 (tostring exponent_form i) ≡ some i
unfolding tostring
parse_i64-tostring f (pos n) h = rw (h, tostring) (parse_i64-print_i64 (pos n) (ground arith))
parse_i64-tostring f (negsuc n) h = rw (h, tostring) (parse_i64-print_i64 (negsuc n) (ground arith))

tostring-exponent : (f : ℕ → String) (n : ℕ) → exact ≤ n → tostring f (pos n) ≡ f n
unfolding tostring
tostring-exponent f n h = ground arith

quantity_of-zero : quantity_of (pos 0) ≡ 0
unfolding i64_to_decimal
quantity_of-zero = refl

script_status-status_char :
    (s : OrderStatus) → s ≢ OrderStatus.rejected → script_status (status_char s) ≡ some s
unfolding status_char script_status
script_status-status_char OrderStatus.new h = refl
script_status-status_char OrderStatus.partially_filled h = refl
script_status-status_char OrderStatus.filled h = refl
script_status-status_char OrderStatus.cancelled h = refl
script_status-status_char OrderStatus.rejected h = absurd (h refl)

final_status-ne-rejected :
    (v : Valkey) (f : ℕ → String) (a : Argv) (s : ScriptState v f)
    → final_status v f a s ≢ OrderStatus.rejected
unfolding final_status
final_status-ne-rejected v f a s = ground arith

module _ (lib : Crates) where
  abbrev uuid_or_zero : String → Uuid
  uuid_or_zero s = elim (lib.parse_uuid s) [ none ↦ 0 | some u ↦ u ]

  -- What the trade reads as: its numbers at the scale of a Decimal.
  abbrev pub lua_trade : ScriptTrade → LuaTrade
  lua_trade t = record {
    resting_order_id = uuid_or_zero t.resting_id;
    price = i64_to_decimal t.price_i;
    quantity = quantity_of (pos t.qty_i);
    buyer_id = t.buyer_id;
    seller_id = t.seller_id;
  }

  -- The resting id is a Uuid, and price and quantity are printed exactly.
  abbrev pub IsReadable : ScriptTrade → Type 0
  IsReadable t =
      (lib.parse_uuid t.resting_id ≡ some (uuid_or_zero t.resting_id))
      × (is_exact t.price_i ≡ true)
      × (t.qty_i < exact)

  parse_trade_lem :
      (f : ℕ → String) (t : ScriptTrade)
      → IsReadable t
      → parse_trade lib t.resting_id
          (tostring f t.price_i)
          (tostring f (pos t.qty_i))
          t.buyer_id
          t.seller_id
        ≡ some (lua_trade t)
  unfolding parse_trade
  parse_trade_lem f t (u, p, q) = rw (
    u,
    parse_i64-tostring f t.price_i p,
    parse_i64-tostring f (pos t.qty_i) (lt→ltb t.qty_i exact q),
    parse_trade,
  )

  parse_trades-trade_texts :
      (v : Valkey) (f : ℕ → String) (ts : List ScriptTrade)
      → All IsReadable ts
      → parse_trades lib (length ts) (trade_texts v f ts) ≡ some (map lua_trade ts)
  unfolding parse_trades trade_texts
  parse_trades-trade_texts v f [] h = refl
  parse_trades-trade_texts v f (t ∷ ts) h =
      rw (parse_trade_lem f t h.0, parse_trades-trade_texts v f ts h.1)

  length-trade_texts :
      (v : Valkey) (f : ℕ → String) (ts : List ScriptTrade)
      → length (trade_texts v f ts) ≡ length ts * 5
  unfolding trade_texts
  length-trade_texts v f [] = omega arith
  length-trade_texts v f (t ∷ ts) = omega (arith, length-trade_texts v f ts)

  count-tostring : (f : ℕ → String) (n : ℕ) → n < exact → count_or_zero (tostring f (pos n)) ≡ n
  count-tostring f n h =
      rw (parse_i64-tostring f (pos n) (lt→ltb n exact h), count_or_zero, parse_or_zero)

  parse_result_lem :
      (v : Valkey) (f : ℕ → String) (a : Argv) (s : ScriptState v f)
      → length s.trades < exact
      → All IsReadable s.trades
      → parse_result lib
          (tostring f (pos s.remaining_i))
          (status_char (final_status v f a s))
          (tostring f (pos (length s.trades)))
          (trade_texts v f s.trades)
        ≡ ok (record {
          remaining = quantity_of (parse_or_zero (tostring f (pos s.remaining_i)));
          status = final_status v f a s;
          trades = map lua_trade s.trades;
        })
  unfolding parse_result
  parse_result_lem v f a s n r =
      rw
        (
          script_status-status_char _ (final_status-ne-rejected v f a s),
          count-tostring f (length s.trades) n,
          length-trade_texts v f s.trades,
          parse_trades-trade_texts v f s.trades r,
          parse_result,
        )
        (rw (ltb_self (length s.trades * 5)))

  -- A reply that the script builds is read without an error, if there are fewer than 10^14 trades,
  -- each of a resting order whose member is a Uuid, at a price and for a quantity of fewer than
  -- 10^14 units of 10^-8 (a million whole ones): the status and the trades are those of the
  -- script. The remaining quantity is the script's too, if it is below 10^14 units as well;
  -- otherwise, where the exponent form that `tostring` gives is no `i64`, it is read as 0.
  pub parse_reply-result :
      (v : Valkey) (f : ℕ → String) (a : Argv) (s : ScriptState v f)
      → length s.trades < exact
      → All IsReadable s.trades
      → (r : LuaMatchResult) × (parse_reply lib (result v f a s) ≡ ok r)
        × (r.status ≡ final_status v f a s)
        × (r.trades ≡ map lua_trade s.trades)
        × (s.remaining_i < exact → r.remaining ≡ quantity_of (pos s.remaining_i))
        × (exact ≤ s.remaining_i → parse_i64 (f s.remaining_i) ≡ none → r.remaining ≡ 0)
  unfolding parse_reply result
  parse_reply-result v f a s n r = (
    record {
      remaining = quantity_of (parse_or_zero (tostring f (pos s.remaining_i)));
      status = final_status v f a s;
      trades = map lua_trade s.trades;
    },
    parse_result_lem v f a s n r,
    refl,
    refl,
    (λ h.
        rw
          (parse_i64-tostring f (pos s.remaining_i) (lt→ltb s.remaining_i exact h), parse_or_zero)),
    λ h e. rw (tostring-exponent f s.remaining_i h, e, parse_or_zero) quantity_of-zero,
  )
