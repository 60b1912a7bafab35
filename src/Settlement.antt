-- ===== src/Settlement.antt =====
-- apps/payouts, the settlement chain: what is owed (services_settlement_calculator.py), what may be
-- settled (services_settlement_planner.py), the batches (services_settlement_batch.py and
-- services_settlement_batch_builder.py) and their execution (services_settlement_execution.py).
pub mod Books
pub mod Calculator
pub mod Planner
pub mod Batches
pub mod Builder
pub mod Execution
pub mod Claims
pub mod Technician
mod Tests
