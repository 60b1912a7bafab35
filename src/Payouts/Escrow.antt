-- ===== src/Payouts/Escrow.antt =====
-- apps/payouts/services_escrow.py, and reserve_and_distribute_escrow_for_invoice of
-- apps/invoices/services.py: customer money that the platform holds.
pub mod Defs
pub mod Machine
pub mod Table
pub mod Distribution
