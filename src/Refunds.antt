-- ===== src/Refunds.antt =====
-- Corrections of paid invoices: the life of an adjustment document
-- (apps/payouts/services_adjustment.py) and the full refund that an approved one orders
-- (apps/payouts/services_refund_execution.py).
pub mod Documents
pub mod Machine
pub mod Execution
pub mod Reversal
pub mod Refunded
pub mod Equivalence
pub mod Effects
pub mod Builds
pub mod Twice
mod Tests
