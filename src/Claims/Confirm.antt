-- ===== src/Claims/Confirm.antt =====
-- agents.service.ts: previewClaim and confirmClaim, with authenticateAgentToken of
-- federation-credentials.service.ts, which tells which agent a control token controls.
use agentschat.Prelude.{
  ℕ, Bool, false, not, ◌&&◌, ◌||◌, List, [], ◌∷◌, Option, none, some, leb, ◌==◌, is_some, holds,
  if◌then◌else◌,
}
use agentschat.Prelude.Table.{find_one, exists, update, insert_row}
use agentschat.Prelude.Action.{pure, gets, modify, or_throw, throw_if, in_transaction, ◌>>=◌, ◌>>◌}
use agentschat.Text.{Text, codes, trim, non_empty, same_text}
use agentschat.Text.Split.{split}
use agentschat.Auth.Store.{UserEntity, user_by_id}
use agentschat.Auth.Tokens.{Session}
use agentschat.Claims.Store.{
  AgentOwnerType, ClaimRequestStatus, RejectionReason, AgentEntity, AgentConnectionEntity,
  ClaimRequestEntity, Refusal, M, is_self, is_pending,
}
use agentschat.Claims.Requests.{agent_by_id, claim_by_id, closed_claim, update_claims}

-- The agent and the connection of a control token.
pub record Control : Type 0 where
  pub agent_id : ℕ
  pub connection_id : Text

abbrev pub connection_by_id : Text → AgentConnectionEntity → Bool
connection_by_id i c = same_text c.id i

-- The connection's id in a token, if it has the form of one.
abbrev pub connection_id_of : List Text → Option Text
connection_id_of [] = none
connection_id_of (version ∷ []) = none
connection_id_of (version ∷ i ∷ rest) =
    if same_text version (codes "fed_v1") then non_empty i else none

unfoldable pub authenticate_agent_token : (Text → Text) → Text → M Control
unfolding split
authenticate_agent_token sha256 token = do
  i ← or_throw (connection_id_of (split b'.' token)) Refusal.invalid_agent_token
  found ← gets (λ db. find_one (connection_by_id i) db.connections)
  c ← or_throw found Refusal.invalid_agent_token
  there ← gets (λ db. exists (agent_by_id c.agent_id) db.agents)
  throw_if (not there) Refusal.invalid_agent_token
  throw_if (not (same_text (sha256 token) c.token_hash)) Refusal.invalid_agent_token
  pure (record { agent_id = c.agent_id; connection_id = c.id })

abbrev pub given : Option Text → Option Text
given none = none
given (some s) = non_empty s

unfoldable pub assert_control_token : (Text → Text) → ℕ → Option Text → M Control
assert_control_token sha256 agent token = do
  t ← or_throw (given token) Refusal.control_required
  control ← authenticate_agent_token sha256 t
  throw_if (not (control.agent_id == agent)) Refusal.other_agents_token
  pure control

abbrev pub is_for_other : ℕ → ClaimRequestEntity → Bool
is_for_other agent c = is_some c.agent_id && not (holds c.agent_id agent)

-- The human, with the session that signed the human in.
pub record Claimant : Type 0 where
  pub id : ℕ
  pub session : Option Session

unfoldable pub preview_claim : (Text → Text) → ℕ → ℕ → ℕ → ℕ → Option Text → M ClaimRequestEntity
preview_claim sha256 now owner agent request token = do
  control ← assert_control_token sha256 agent token
  found ← gets (λ db. find_one (claim_by_id request) db.claims)
  c ← or_throw found Refusal.binding_mismatch
  throw_if (not (c.requested_by_user_id == owner) || is_for_other agent c) Refusal.binding_mismatch
  throw_if (not (is_pending c.status) || leb c.expires_at now) Refusal.not_pending
  pure c

-- `authorization`: what the operator approved.
pub record BindingApproval : Type 0 where
  pub purpose : Option Text
  pub account_id : Option ℕ
  pub agent_id : Option ℕ
  pub approved : Bool

abbrev is_text : Option Text → Text → Bool
is_text none t = false
is_text (some s) t = same_text s t

abbrev pub approves : BindingApproval → ℕ → ℕ → Bool
approves a owner agent =
    is_text a.purpose (codes "bind_account")
    && holds a.account_id owner
    && holds a.agent_id agent
    && a.approved

-- The account's session is current.
abbrev pub is_current : ℕ → Option Session → Option UserEntity → Bool
is_current now none account = false
is_current now (some s) none = false
is_current now (some s) (some u) = u.auth_token_version == s.version && not (leb s.expires_at now)

abbrev pub bound_agent : ℕ → AgentEntity → AgentEntity
bound_agent owner a = record a { owner_type = AgentOwnerType.human; owner_user_id = some owner }

abbrev pub confirmed_claim : ℕ → ℕ → ClaimRequestEntity → ClaimRequestEntity
confirmed_claim now agent c = record c {
  agent_id = some agent;
  status = ClaimRequestStatus.confirmed;
  confirmed_at = some now;
}

unfoldable pub bind_agent : ℕ → ℕ → M (Unit {0})
bind_agent owner agent =
    modify λ db. record db { agents = update (agent_by_id agent) (bound_agent owner) db.agents }

abbrev pub is_other_pending : ℕ → ℕ → ClaimRequestEntity → Bool
is_other_pending agent request c =
    holds c.agent_id agent && not (c.id == request) && is_pending c.status

unfoldable pub save_audit : ℕ → ℕ → ℕ → Text → M (Unit {0})
save_audit owner agent request connection = modify λ db. record db {
  audits = insert_row db.audits (record {
    actor_user_id = owner;
    entity_id = agent;
    claim_request_id = request;
    connection_id = connection;
  });
}

-- The writes of a confirmation.
unfoldable pub bind_account : ℕ → ℕ → ℕ → ℕ → Text → M (Unit {0})
bind_account now owner agent request connection = do
  bind_agent owner agent
  update_claims (claim_by_id request) (confirmed_claim now agent)
  update_claims (is_other_pending agent request)
      (closed_claim ClaimRequestStatus.expired RejectionReason.agent_bound now)
  save_audit owner agent request connection

abbrev pub is_control_connection : Control → ℕ → AgentConnectionEntity → Bool
is_control_connection control agent c = same_text c.id control.connection_id && c.agent_id == agent

abbrev pub has_token : Text → Option AgentConnectionEntity → Bool
has_token hash none = false
has_token hash (some c) = same_text c.token_hash hash

-- What is asked of the agent and of the request.
unfoldable pub bind_checked :
    (Text → Text)
    → ℕ
    → Claimant
    → ℕ
    → ℕ
    → Text
    → Control
    → AgentEntity
    → ClaimRequestEntity
    → M (Unit {0})
bind_checked sha256 now owner agent request challenge control a c = do
  throw_if (not (c.requested_by_user_id == owner.id) || is_for_other agent c) Refusal.scope_mismatch
  throw_if (not (is_pending c.status) || leb c.expires_at now || not (is_self a.owner_type))
      Refusal.consumed_or_bound
  throw_if (not (same_text c.challenge_token_hash (sha256 challenge))) Refusal.invalid_challenge
  bind_account now owner.id agent request control.connection_id

unfoldable pub confirm_transaction :
    (Text → Text) → ℕ → Claimant → ℕ → ℕ → Text → Text → Control → M (Unit {0})
confirm_transaction sha256 now owner agent request challenge token control = do
  account ← gets (λ db. find_one (user_by_id owner.id) db.users)
  throw_if (not (is_current now owner.session account)) Refusal.session_expired
  found ← gets (λ db. find_one (agent_by_id agent) db.agents)
  a ← or_throw found Refusal.agent_not_found
  connection ← gets (λ db. find_one (is_control_connection control agent) db.connections)
  throw_if (not (has_token (sha256 token) connection)) Refusal.control_revoked
  pending ← gets (λ db. find_one (claim_by_id request) db.claims)
  c ← or_throw pending Refusal.request_not_found
  bind_checked sha256 now owner agent request challenge control a c

abbrev pub token_or_empty : Option Text → Text
token_or_empty none = []
token_or_empty (some t) = t

unfoldable pub confirm_claim :
    (Text → Text) → ℕ → Claimant → ℕ → ℕ → Text → Option Text → BindingApproval → M (Unit {0})
unfolding trim
confirm_claim sha256 now owner agent request challenge token approval = do
  control ← assert_control_token sha256 agent token
  throw_if (not (approves approval owner.id agent)) Refusal.approval_required
  trimmed ← or_throw (non_empty (trim challenge)) Refusal.challenge_required
  in_transaction
      (confirm_transaction sha256 now owner agent request trimmed (token_or_empty token) control)
