-- ===== src/Orders.antt =====
-- apps/orders: the order engine. `Model` has the rows and the database, the modules after it one
-- group of services each, and `Machine` and the others what the services guarantee.
pub mod Model
pub mod Eligibility
pub mod Creation
pub mod Assignment
pub mod Completion
pub mod Cancellation
pub mod Recycling
pub mod Editing
pub mod Machine
pub mod Steps
pub mod Accepting
pub mod Locked
pub mod Effect
pub mod History
pub mod Invariant
pub mod Stale
pub mod Idempotence
mod Tests
pub mod Restoring
pub mod Acceptance
pub mod Replacing
pub mod Renewal
