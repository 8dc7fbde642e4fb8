-- ===== src/Types.antt =====
-- The data model of crates/shared/src/types.rs. A `Decimal` (crate rust_decimal, at most 28
-- decimal places) is a whole number of units of 10^-28, so its sums, differences and comparisons
-- are those of the integers. Prices are signed. Quantities are natural numbers: a message with a
-- quantity of zero or less is refused before an order exists (crates/gateway/src/worker.rs,
-- process_order), and no operation subtracts more than there is. Identifiers (Uuid) and times are numbers that
-- the program only compares and copies.
mod Enums
mod Records
pub mod Pair
pub use Enums.*
pub use Records.*
