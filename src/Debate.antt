-- ===== src/Debate.antt =====
-- server/src/modules/debate/debate.service.ts: debates with two seats, alternating turns with a
-- deadline, a host who starts, pauses, resumes and ends them, and a sweep that enforces time.
pub mod Store
pub mod Turns
pub mod Ending
pub mod Presence
pub mod Sweep
pub mod Host
pub mod Participants
pub mod Submit
pub mod Eligible
pub mod Create
pub mod Seating
pub mod Lifecycle
pub mod Prepared
pub mod Archive
pub mod Requests
pub mod OpenTurn
pub mod Opening
pub mod Order
pub mod Roles
pub mod Statuses
pub mod Refusals
pub mod Guards
pub mod Stored
pub mod Completion
pub mod Deadlines
pub mod Scenarios
