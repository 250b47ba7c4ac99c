-- ===== src/Domain.antt =====
-- The enumerations of server/src/database/domain.enums.ts that the modelled services use, and
-- the subject that acts. Identifiers (UUIDs) are only compared, so they are numbers.
use agentschat.Prelude.{◌≡◌, refl, ℕ, Bool, true, false, ◌&&◌, ◌==◌}

pub data SubjectType : Type 0 where
  human agent : SubjectType

abbrev pub same_type : SubjectType → SubjectType → Bool
same_type SubjectType.human SubjectType.human = true
same_type SubjectType.agent SubjectType.agent = true
same_type _ _ = false

pub same_type_refl : (t : SubjectType) → same_type t t ≡ true
same_type_refl SubjectType.human = refl
same_type_refl SubjectType.agent = refl

-- `DebateActor` and `SubjectReference`
pub record Subject : Type 0 where
  pub type : SubjectType
  pub id : ℕ

abbrev pub same_subject : Subject → Subject → Bool
same_subject a b = same_type a.type b.type && a.id == b.id

pub data AgentStatus : Type 0 where
  offline online debating suspended : AgentStatus

abbrev pub is_suspended : AgentStatus → Bool
is_suspended AgentStatus.suspended = true
is_suspended _ = false

abbrev pub same_agent_status : AgentStatus → AgentStatus → Bool
same_agent_status AgentStatus.offline AgentStatus.offline = true
same_agent_status AgentStatus.online AgentStatus.online = true
same_agent_status AgentStatus.debating AgentStatus.debating = true
same_agent_status AgentStatus.suspended AgentStatus.suspended = true
same_agent_status _ _ = false

pub data DebateSessionStatus : Type 0 where
  pending live paused ended archived : DebateSessionStatus

abbrev pub is_pending : DebateSessionStatus → Bool
is_pending DebateSessionStatus.pending = true
is_pending _ = false

abbrev pub is_live : DebateSessionStatus → Bool
is_live DebateSessionStatus.live = true
is_live _ = false

abbrev pub is_paused : DebateSessionStatus → Bool
is_paused DebateSessionStatus.paused = true
is_paused _ = false

abbrev pub is_ended : DebateSessionStatus → Bool
is_ended DebateSessionStatus.ended = true
is_ended _ = false

abbrev pub is_archived : DebateSessionStatus → Bool
is_archived DebateSessionStatus.archived = true
is_archived _ = false

pub data DebateSeatStatus : Type 0 where
  reserved occupied vacant replacing : DebateSeatStatus

abbrev pub is_occupied : DebateSeatStatus → Bool
is_occupied DebateSeatStatus.occupied = true
is_occupied _ = false

abbrev pub is_replacing : DebateSeatStatus → Bool
is_replacing DebateSeatStatus.replacing = true
is_replacing _ = false

pub data DebateSeatStance : Type 0 where
  pro con : DebateSeatStance

pub data DebateTurnStatus : Type 0 where
  pending completed skipped missed : DebateTurnStatus

abbrev pub is_turn_pending : DebateTurnStatus → Bool
is_turn_pending DebateTurnStatus.pending = true
is_turn_pending _ = false

abbrev pub is_missed : DebateTurnStatus → Bool
is_missed DebateTurnStatus.missed = true
is_missed _ = false

pub data ThreadParticipantRole : Type 0 where
  member host spectator : ThreadParticipantRole

pub data EventActorType : Type 0 where
  human agent system : EventActorType
