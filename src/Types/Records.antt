-- ===== src/Types/Records.antt =====
-- The structs of crates/shared/src/types.rs.
use serverless_matching_engi.Prelude.{ℕ, String, Option}
use serverless_matching_engi.Prelude.Int.{ℤ}
use serverless_matching_engi.Types.Enums.{
  Side, OrderType, TimeInForce, OrderStatus, SelfTradePreventionMode,
}

abbrev pub Uuid : Type 0
Uuid = ℕ

abbrev pub DateTime : Type 0
DateTime = ℕ

-- Prices and amounts of money, in units of 10^-28.
abbrev pub Decimal : Type 0
Decimal = ℤ

-- Quantities, in units of 10^-28; never negative.
abbrev pub Quantity : Type 0
Quantity = ℕ

pub record Order : Type 0 where
  pub id : Uuid
  pub user_id : String
  pub pair_id : String
  pub side : Side
  pub order_type : OrderType
  pub tif : TimeInForce
  pub price : Option Decimal
  pub quantity : Quantity
  pub remaining : Quantity
  pub status : OrderStatus
  pub stp_mode : SelfTradePreventionMode
  pub version : ℤ
  pub sequence : ℤ
  pub created_at : DateTime
  pub updated_at : DateTime
  pub client_order_id : Option String
  pub received_at : Option DateTime
  pub matched_at : Option DateTime
  pub persisted_at : Option DateTime

pub record Trade : Type 0 where
  pub id : Uuid
  pub pair_id : String
  pub buy_order_id : Uuid
  pub sell_order_id : Uuid
  pub buyer_id : String
  pub seller_id : String
  pub price : Decimal
  pub quantity : Quantity
  pub sequence : ℤ
  pub created_at : DateTime
