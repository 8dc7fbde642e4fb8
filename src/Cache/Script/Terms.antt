-- ===== src/Cache/Script/Terms.antt =====
-- crates/shared/src/lua/match_order.lua: the keys and arguments of the script, and what it computes
-- of one resting order.
use serverless_matching_engi.Prelude.{
  ℕ, suc, ◌^◌, String, Bool, true, ◌||◌, Option, none, some, ltb, if◌then◌else◌, str_eq,
}
use serverless_matching_engi.Prelude.Int.{ℤ, pos, negsuc, leb_ℤ}
use serverless_matching_engi.Types.{Side, OrderType, TimeInForce, SelfTradePreventionMode}
use serverless_matching_engi.Text.{print_i64}
use serverless_matching_engi.Text.Exponent.{tonumber}
use serverless_matching_engi.Cache.Fields.{parse_stp}
use serverless_matching_engi.Cache.Valkey.{Bound}
use Prim.Native.String.{◌++◌ as append}

-- KEYS.
pub record Keys : Type 0 where
  pub bids_key : String
  pub asks_key : String
  pub version_key : String
  pub order_key : String

-- ARGV.
pub record Argv : Type 0 where
  pub order_id : String
  pub side : Side
  pub order_type : OrderType
  pub tif : TimeInForce
  pub price_i : ℤ
  pub qty_i : ℕ
  pub user_id : String
  pub stp_mode : SelfTradePreventionMode
  pub ts_ms : String
  pub pair_id : String
  pub score : ℤ
  pub max_score : Bound
  pub lock_asset : String
  pub lock_amount : ℤ

pub record ScriptTrade : Type 0 where
  pub resting_id : String
  pub price_i : ℤ
  pub qty_i : ℕ
  pub buyer_id : String
  pub seller_id : String

-- The fields of a resting order that the script reads, with its defaults.
pub record Resting : Type 0 where
  pub price_i : ℤ
  pub remaining_i : ℤ
  pub user_id : String
  pub stp : String
  pub status : String
  pub order_type : String

-- Lua's `tostring` of a whole number (format %.14g): below 10^14 the decimal digits, from there on
-- an exponent form.
unfoldable pub tostring : (ℕ → String) → ℤ → String
tostring exponent_form (pos n) = if ltb n (10 ^ 14) then print_i64 (pos n) else exponent_form n
tostring exponent_form (negsuc n) =
    if ltb (suc n) (10 ^ 14) then print_i64 (negsuc n) else append "-" (exponent_form (suc n))

abbrev pub or_text : Option String → String → String
or_text none d = d
or_text (some s) d = s

-- `tonumber(text) or 0`
abbrev pub number_or_zero : Option String → ℤ
number_or_zero none = pos 0
number_or_zero (some s) = elim (tonumber s) [ none ↦ pos 0 | some i ↦ i ]

-- Whether the prices cross.
unfoldable pub compatible : Argv → Resting → Bool
compatible a r = elim a.order_type [
  | OrderType.market ↦ true
  | OrderType.limit ↦ elim a.side [
    | Side.buy ↦ leb_ℤ r.price_i a.price_i
    | Side.sell ↦ leb_ℤ a.price_i r.price_i
  ]
]

-- The mode of the incoming order, or that of the resting order if it has none.
unfoldable pub combined : SelfTradePreventionMode → String → SelfTradePreventionMode
combined SelfTradePreventionMode.none r_stp = parse_stp r_stp
combined mode r_stp = mode

-- A ghost: filled, cancelled, or nothing left.
abbrev pub is_consumed : Resting → Bool
is_consumed r = str_eq r.status "F" || str_eq r.status "C" || leb_ℤ r.remaining_i (pos 0)

unfoldable pub script_trade : Argv → String → Resting → ℕ → ScriptTrade
script_trade a rid r fill_i = record {
  resting_id = rid;
  price_i = if str_eq r.order_type "M" then a.price_i else r.price_i;
  qty_i = fill_i;
  buyer_id = elim a.side [ Side.buy ↦ a.user_id | Side.sell ↦ r.user_id ];
  seller_id = elim a.side [ Side.buy ↦ r.user_id | Side.sell ↦ a.user_id ];
}
