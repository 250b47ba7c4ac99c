-- ===== src/Federation/Store.antt =====
-- The rows that the delivery service reads and writes, and their store. Times are in milliseconds.
use agentschat.Prelude.{
  ℕ, ◌*◌, Bool, true, false, List, [], ◌∷◌, Option, leb, ◌==◌, or_else, if◌then◌else◌,
}
use agentschat.Prelude.Table.{update}
use agentschat.Prelude.Action.{Action}
use agentschat.Text.{Text}
use agentschat.Domain.{AgentStatus}

pub data DeliveryStatus : Type 0 where
  pending sent acked retrying failed dead_letter : DeliveryStatus

pub data DeliveryChannel : Type 0 where
  webhook polling : DeliveryChannel

pub data ConnectionTransportMode : Type 0 where
  webhook_mode polling_mode hybrid_mode : ConnectionTransportMode

-- What `last_error` says, one constructor for each text.
pub data DeliveryError : Type 0 where
  http_status : ℕ → DeliveryError
  timed_out delivery_failed budget_exhausted window_expired : DeliveryError

pub record DeliveryEntity : Type 0 where
  pub id : ℕ
  pub event_id : ℕ
  pub recipient_agent_id : ℕ
  pub agent_connection_id : Option ℕ
  pub sequence : ℕ
  pub status : DeliveryStatus
  pub delivery_channel : DeliveryChannel
  pub attempt_count : ℕ
  pub webhook_attempt_count : ℕ
  pub last_attempt_at : Option ℕ
  pub next_attempt_at : Option ℕ
  pub acked_at : Option ℕ
  pub replay_expires_at : ℕ
  pub dead_lettered_at : Option ℕ
  pub archived_at : Option ℕ
  pub last_error : Option DeliveryError
  pub updated_at : ℕ

pub record AgentConnectionEntity : Type 0 where
  pub id : ℕ
  pub agent_id : ℕ
  pub transport_mode : ConnectionTransportMode
  pub webhook_url : Option Text
  pub webhook_secret : Option Text
  pub polling_enabled : Bool
  pub webhook_consecutive_failures : ℕ
  pub webhook_blocked_until : Option ℕ
  pub last_heartbeat_at : Option ℕ
  pub last_seen_at : Option ℕ

pub record AgentEntity : Type 0 where
  pub id : ℕ
  pub status : AgentStatus
  pub last_seen_at : Option ℕ

-- What a payload takes from an event, apart from its content.
pub record EventEntity : Type 0 where
  pub id : ℕ
  pub event_type : Text
  pub actor_agent_id : Option ℕ

-- A row of `agent_poll_leases`.
pub record PollLease : Type 0 where
  pub id : ℕ
  pub agent_id : ℕ
  pub expires_at : ℕ

pub record FederationDb : Type 0 where
  pub deliveries : List DeliveryEntity
  pub connections : List AgentConnectionEntity
  pub agents : List AgentEntity
  pub events : List EventEntity
  pub leases : List PollLease
  pub next_id : ℕ

-- `AuthenticatedFederatedAgent`
pub record FederatedAgent : Type 0 where
  pub id : ℕ
  pub connection_id : ℕ
  pub polling_enabled : Bool

-- The refusals: `FederationHttpException` by its code, and those of `requeueDeadLetter`.
pub data Refusal : Type 0 where
  polling_not_enabled poll_concurrency_limit invalid_limit invalid_cursor invalid_ack_batch
        acks_required :
      Refusal
  delivery_not_found event_not_found not_dead_letter changed_before_requeue : Refusal

abbrev pub M : Type 0 → Type 0
M = Action FederationDb Refusal

-- What the service reads from the environment.
pub record Environment : Type 0 where
  pub is_test : Bool
  pub retention_ms : Option ℕ
  pub stale_after_seconds : ℕ

abbrev pub default_delivery_retention_ms : ℕ
default_delivery_retention_ms = 72 * 60 * 60 * 1000

abbrev pub delivery_history_archive_after_ms : ℕ
delivery_history_archive_after_ms = 30 * 24 * 60 * 60 * 1000

unfoldable pub delivery_retention_ms : Environment → ℕ
delivery_retention_ms e =
    or_else e.retention_ms (if e.is_test then 800 else default_delivery_retention_ms)

abbrev pub retry_schedule_ms : Environment → List ℕ
retry_schedule_ms e = if e.is_test then 0 ∷ 100 ∷ 200 ∷ [] else 0 ∷ 5000 ∷ 30000 ∷ []

-- `retryScheduleMs.length`: both schedules have three entries.
abbrev pub max_webhook_attempts : ℕ
max_webhook_attempts = 3

abbrev pub webhook_request_timeout_ms : Environment → ℕ
webhook_request_timeout_ms e = if e.is_test then 200 else 10000

abbrev pub presence_stale_after_ms : Environment → ℕ
presence_stale_after_ms e =
    (if leb e.stale_after_seconds 1 then 1 else e.stale_after_seconds) * 1000

abbrev pub delivery_by_id : ℕ → DeliveryEntity → Bool
delivery_by_id i d = d.id == i

-- `activeDeliveryStatuses`
abbrev pub is_active : DeliveryStatus → Bool
is_active DeliveryStatus.pending = true
is_active DeliveryStatus.sent = true
is_active DeliveryStatus.retrying = true
is_active _ = false

abbrev pub is_acked : DeliveryStatus → Bool
is_acked DeliveryStatus.acked = true
is_acked _ = false

abbrev pub is_dead_letter : DeliveryStatus → Bool
is_dead_letter DeliveryStatus.dead_letter = true
is_dead_letter _ = false

-- An update of deliveries also sets their `updated_at`.
abbrev pub touched : ℕ → (DeliveryEntity → DeliveryEntity) → DeliveryEntity → DeliveryEntity
touched now f d = record (f d) { updated_at = now }

unfoldable pub update_deliveries :
    ℕ → (DeliveryEntity → Bool) → (DeliveryEntity → DeliveryEntity) → FederationDb → FederationDb
update_deliveries now p f db = record db { deliveries = update p (touched now f) db.deliveries }
