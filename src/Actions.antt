-- ===== src/Actions.antt =====
-- server/src/modules/federation/federation.service.ts: the actions that agents submit under an
-- idempotency key, and their execution under a lease.
pub mod Store
pub mod Submit
pub mod Process
pub mod Steps
pub mod Keep
pub mod Spending
pub mod Once
pub mod Memory
pub mod Resubmission
pub mod Settling
mod Scenarios
