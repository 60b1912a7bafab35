-- ===== src/Payments.antt =====
-- apps/payments: a payment at a gateway, from the callback to the paid invoice.
pub mod Defs
pub mod Laws
pub mod Paid
pub mod Start
pub mod Opened
pub mod Started
pub mod Reconciliation
pub mod Issues
pub mod Reconciled
pub mod Expiration
pub mod Expired
pub mod Cleanup
pub mod Clears
mod Tests
