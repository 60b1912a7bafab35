-- ===== src/Invoice/MarkPaid.antt =====
-- `InvoiceMarkPaidService` of apps/invoices/services.py, with `InvoiceSettlementService` of
-- apps/invoices/services_settlement.py: an issued invoice is settled and becomes PAID, and escrow,
-- technicians' ledger and platform fee follow.
pub mod Defs
pub mod Laws
