-- ===== src/Worker/Message/Laws.antt =====
-- What the checks on a message let through.
use serverless_matching_engi.Prelude.{
  ℕ, ◌+◌, ◌<◌, ◌%◌, String, true, false, ◌≡◌, ◌≢◌, ◌↔◌, refl, ◌⊎◌, inl, inr, Option, none, some,
  arith, not, Option-cases,
}
use serverless_matching_engi.Prelude.Int.{pos, negsuc, pos_part, neg_part, ◌≤ℤ◌}
use serverless_matching_engi.Types.{Order, OrderStatus, Decimal}
use serverless_matching_engi.Worker.Message.{
  QueuedOrderMsg, Parsers, PairConfig, ok, is_limit, is_none, read_order, validate_order,
  check_tick, misaligned, check_config,
}

-- An order as it goes to the match: something to trade, nothing traded, and a price exactly for a
-- limit order.
pub record IsFresh (o : Order) : Type 0 where
  pub positive : 0 < o.quantity
  pub untouched : o.remaining ≡ o.quantity
  pub status : o.status ≡ OrderStatus.new
  pub priced : is_limit o.order_type ≡ not (is_none o.price)

abbrev magnitude : Decimal → ℕ
magnitude u = pos_part u + neg_part u

-- `d` is a whole multiple of the step `u`, which is not zero.
abbrev pub Aligned : Decimal → Decimal → Type 0
Aligned d u = (u ≢ pos 0) × (pos_part d % magnitude u ≡ 0) × (neg_part d % magnitude u ≡ 0)

-- A price is held against a positive tick size only.
abbrev pub TickAligned : Option Decimal → Decimal → Type 0
TickAligned none tick = Unit
TickAligned (some price) tick = (tick ≤ℤ pos 0) ⊎ Aligned price tick

pub record IsAcceptable (cfg : PairConfig) (o : Order) : Type 0 where
  pub active : cfg.active ≡ true
  pub lot : Aligned (pos o.quantity) cfg.lot_size
  pub least : cfg.min_order_size ≤ℤ pos o.quantity
  pub most : pos o.quantity ≤ℤ cfg.max_order_size
  pub tick : TickAligned o.price cfg.tick_size

misaligned-Aligned : (d u : Decimal) → misaligned d u ≡ ok false → Aligned d u
unfolding misaligned
misaligned-Aligned d (pos b) h = ground arith
misaligned-Aligned d (negsuc b) h = ground arith

Aligned-misaligned : (d u : Decimal) → Aligned d u → misaligned d u ≡ ok false
unfolding misaligned
Aligned-misaligned d (pos b) h = ground arith
Aligned-misaligned d (negsuc b) h = ground arith

check_tick-TickAligned :
    (cfg : PairConfig) (price : Option Decimal)
    → check_tick cfg price ≡ ok tt
    → TickAligned price cfg.tick_size
unfolding check_tick
check_tick-TickAligned cfg none h = tt
check_tick-TickAligned cfg (some p) h = ground (arith, misaligned-Aligned p cfg.tick_size)

TickAligned-check_tick :
    (cfg : PairConfig) (price : Option Decimal)
    → TickAligned price cfg.tick_size
    → check_tick cfg price ≡ ok tt
unfolding check_tick
TickAligned-check_tick cfg none h = refl
TickAligned-check_tick cfg (some p) h = ground (arith, Aligned-misaligned p cfg.tick_size)

check_config-IsAcceptable :
    (cfg : PairConfig) (o : Order) → check_config cfg o ≡ ok tt → IsAcceptable cfg o
unfolding check_config
check_config-IsAcceptable cfg o h = record {
  active = ground arith;
  lot = ground (arith, misaligned-Aligned (pos o.quantity) cfg.lot_size);
  least = ground arith;
  most = ground arith;
  tick = ground (arith, check_tick-TickAligned cfg o.price);
}

IsAcceptable-check_config :
    (cfg : PairConfig) (o : Order) → IsAcceptable cfg o → check_config cfg o ≡ ok tt
unfolding check_config
IsAcceptable-check_config cfg o h =
    let lot = Aligned-misaligned (pos o.quantity) cfg.lot_size h.lot in
    let tick = TickAligned-check_tick cfg o.price h.tick in ground (arith, lot, tick)

-- An order passes exactly when its pair is known and active, the quantity is a multiple of a lot
-- size that is not zero and lies within the pair's bounds, and the price, if any, is a multiple of
-- the tick size or the tick size is not positive.
pub validate_order_iff :
    (pairs : String → Option PairConfig) (o : Order)
    → (validate_order pairs o ≡ ok tt)
      ↔ ((cfg : PairConfig) × (pairs o.pair_id ≡ some cfg) × IsAcceptable cfg o)
unfolding validate_order
validate_order_iff pairs o = (accepted, λ (cfg, e, h). rw e (IsAcceptable-check_config cfg o h))
  where
    accepted :
        validate_order pairs o ≡ ok tt
        → (cfg : PairConfig) × (pairs o.pair_id ≡ some cfg) × IsAcceptable cfg o
    accepted h = elim (Option-cases (pairs o.pair_id)) [
      | inl e ↦ absurd (ground arith)
      | inr (cfg, e) ↦ (cfg, e, check_config-IsAcceptable cfg o (ground arith))
    ]

-- A message that is read gives an order with something to trade, nothing of it traded, the status
-- `new`, and a price exactly if it is a limit order.
pub read_order-IsFresh :
    (p : Parsers) (msg : QueuedOrderMsg) (o : Order) → read_order p msg ≡ ok o → IsFresh o
unfolding read_order
read_order-IsFresh p msg o h = record {
  positive = ground arith;
  untouched = ground arith;
  status = ground arith;
  priced = ground arith;
}
