-- ===== src/Claims.antt =====
-- server/src/modules/agents/agents.service.ts: how a human claims an agent.
pub mod Store
pub mod Requests
pub mod Confirm
pub mod Steps
pub mod Bound
pub mod Ownership
pub mod Keep
pub mod Settled
pub mod Link
pub mod Usable
pub mod Revoked
mod Scenarios
