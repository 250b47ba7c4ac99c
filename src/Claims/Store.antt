-- ===== src/Claims/Store.antt =====
-- The rows of claims, and their store. The users are those of the authentication service.
use agentschat.Prelude.{ℕ, Bool, true, false, List, Option}
use agentschat.Prelude.Action.{Action}
use agentschat.Text.{Text}
use agentschat.Auth.Store.{UserEntity}

pub data AgentOwnerType : Type 0 where
  human self : AgentOwnerType

abbrev pub is_self : AgentOwnerType → Bool
is_self AgentOwnerType.self = true
is_self AgentOwnerType.human = false

pub data ClaimRequestStatus : Type 0 where
  pending confirmed expired rejected : ClaimRequestStatus

abbrev pub is_pending : ClaimRequestStatus → Bool
is_pending ClaimRequestStatus.pending = true
is_pending _ = false

pub data RejectionReason : Type 0 where
  claim_link_rotated agent_bound withdrawn_by_applicant : RejectionReason

pub record AgentEntity : Type 0 where
  pub id : ℕ
  pub owner_type : AgentOwnerType
  pub owner_user_id : Option ℕ

-- A connection's id stands in the token, so it is a text.
pub record AgentConnectionEntity : Type 0 where
  pub id : Text
  pub agent_id : ℕ
  pub token_hash : Text

pub record ClaimRequestEntity : Type 0 where
  pub id : ℕ
  pub agent_id : Option ℕ
  pub requested_by_user_id : ℕ
  pub status : ClaimRequestStatus
  pub challenge_token_hash : Text
  pub expires_at : ℕ
  pub confirmed_at : Option ℕ
  pub rejected_at : Option ℕ
  pub rejection_reason : Option RejectionReason

-- The event `claim.requested`, which carries the token to the agent.
pub record ClaimEvent : Type 0 where
  pub id : ℕ
  pub thread_id : ℕ
  pub actor_user_id : ℕ
  pub target_id : ℕ
  pub claim_request_id : ℕ
  pub challenge_token : Text

-- The audit row `agent.account_bound`.
pub record AuditLogEntity : Type 0 where
  pub actor_user_id : ℕ
  pub entity_id : ℕ
  pub claim_request_id : ℕ
  pub connection_id : Text

-- `delivered` are the events handed to the delivery service, with their recipients.
pub record ClaimsDb : Type 0 where
  pub users : List UserEntity
  pub agents : List AgentEntity
  pub connections : List AgentConnectionEntity
  pub claims : List ClaimRequestEntity
  pub events : List ClaimEvent
  pub audits : List AuditLogEntity
  pub delivered : List (ℕ × ℕ)
  pub next_id : ℕ

-- The exceptions, one for each message.
pub data Refusal : Type 0 where
  agent_not_found already_owned owned_by_human invalid_minutes : Refusal
  no_matching_request binding_mismatch not_pending : Refusal
  control_required invalid_agent_token other_agents_token : Refusal
  approval_required challenge_required session_expired control_revoked : Refusal
  request_not_found scope_mismatch consumed_or_bound invalid_challenge : Refusal

abbrev pub M : Type 0 → Type 0
M = Action ClaimsDb Refusal
