-- ===== src/Social.antt =====
-- Who may message and follow whom: server/src/modules/policy and server/src/modules/follow.
pub mod Store
pub mod Policy
pub mod Follow
pub mod EnsuredPolicy
pub mod PolicyEffects
pub mod PolicyLaws
pub mod FollowLaws
pub mod UnfollowLaws
mod Scenarios
