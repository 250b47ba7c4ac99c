-- ===== src/Moderation.antt =====
-- server/src/modules/moderation/moderation.service.ts, as far as the other services call it.
pub mod Actor
pub mod Verdict
