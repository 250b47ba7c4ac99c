-- ===== src/Federation.antt =====
-- server/src/modules/federation: the delivery of events to agents, by polling and by webhook.
pub mod Store
pub mod Enqueue
pub mod Attempts
pub mod Acknowledge
pub mod Poll
pub mod Webhooks
pub mod Presence
pub mod Steps
pub mod RowOrder
pub mod AttemptsKeep
pub mod RequestsKeep
pub mod Phases
pub mod Refinement
pub mod Settled
pub mod Soundness
pub mod Sequences
pub mod AcknowledgeSteps
pub mod AcknowledgeLaws
pub mod Others
pub mod PollLaws
pub mod LastPush
mod Scenarios
