-- ===== src/Types/Enums.antt =====
-- The enumerations of crates/shared/src/types.rs.
pub data Side : Type 0 where
  buy sell : Side

unfoldable pub opposite : Side → Side
opposite buy = sell
opposite sell = buy

pub data OrderType : Type 0 where
  limit market : OrderType

-- Good till cancelled, immediate or cancel, fill or kill.
pub data TimeInForce : Type 0 where
  gtc ioc fok : TimeInForce

pub data OrderStatus : Type 0 where
  new partially_filled filled cancelled rejected : OrderStatus

pub data SelfTradePreventionMode : Type 0 where
  none cancel_taker cancel_maker cancel_both : SelfTradePreventionMode
