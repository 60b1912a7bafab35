-- ===== src/Invoice.antt =====
-- apps/invoices: the statuses of an invoice, and how its money is divided.
pub mod Status
pub mod Wage
pub mod MarkPaid
pub mod Cancelling
mod Tests
