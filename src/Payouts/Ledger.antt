-- ===== src/Payouts/Ledger.antt =====
-- apps/payouts/services.py (TechnicianLedgerService), services_direct_settlement.py and
-- services_order_wages.py: the technicians' ledger and what is posted to it.
-- The ledger is the list of its rows, newest first, as `Meta.ordering` of the model has it.
pub mod Entry
pub mod Write
pub mod Balance
pub mod Invoices
pub mod Posting
pub mod Settlement
pub mod Concurrent
pub mod Keys
