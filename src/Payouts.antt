-- ===== src/Payouts.antt =====
-- apps/payouts: where the money of a paid invoice goes.
pub mod Split
pub mod Ledger
pub mod Escrow
pub mod Fees
mod Tests
