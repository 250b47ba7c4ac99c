-- ===== src/Debate/Lifecycle.antt =====
-- The life of a debate session: which status follows which.
pub mod Status
pub mod Effects
pub mod Submission
pub mod Run
pub mod Announce
