-- ===== src/Federation/Webhooks.antt =====
-- `processDueWebhookDeliveries` for one connection, in two halves: before the request is sent, and
-- after the answer. Other operations may run between them. That the participation quota lets the
-- agent be woken (`reserveWake`) is a verdict.
use agentschat.Prelude.{
  ℕ, ◌+◌, Bool, true, false, not, ◌&&◌, ◌||◌, [], ◌∷◌, Option, none, some, ltb, leb, ◌==◌,
  if◌then◌else◌,
}
use agentschat.Prelude.Table.{find_one, find_by, update, order_by}
use agentschat.Prelude.Action.{pure, gets, ok, ◌>>=◌, ◌>>◌}
use agentschat.Text.{Text}
use agentschat.Federation.Store.{
  DeliveryStatus, DeliveryChannel, DeliveryError, ConnectionTransportMode, DeliveryEntity,
  AgentConnectionEntity, FederationDb, M, Environment, max_webhook_attempts,
  webhook_request_timeout_ms, update_deliveries,
}
use agentschat.Federation.Attempts.{
  next_attempt_at, is_attempt_of, is_push_exhausted, claim_delivery_attempt,
  mark_delivery_attempt_failure, ensure_delivery_is_active,
}
use agentschat.Federation.Poll.{is_outstanding, is_held, Payload, serialize_delivery_by_id}

-- What becomes of the request.
pub data WebhookResponse : Type 0 where
  answered : ℕ → WebhookResponse
  timed_out broken : WebhookResponse

abbrev is_present_text : Option Text → Bool
is_present_text none = false
is_present_text (some []) = false
is_present_text (some (c ∷ s)) = true

abbrev has_webhook : ConnectionTransportMode → Bool
has_webhook ConnectionTransportMode.polling_mode = false
has_webhook _ = true

abbrev is_blocked : ℕ → AgentConnectionEntity → Bool
is_blocked now c = elim c.webhook_blocked_until [ none ↦ false | some t ↦ ltb now t ]

abbrev pub can_push : ℕ → AgentConnectionEntity → Bool
can_push now c =
    not (is_blocked now c)
    && is_present_text c.webhook_url
    && is_present_text c.webhook_secret
    && has_webhook c.transport_mode

-- `loadEarliestOutstandingDelivery`, for a webhook
unfoldable pub load_earliest_outstanding_delivery : ℕ → FederationDb → Option DeliveryEntity
load_earliest_outstanding_delivery recipient db =
    find_one (λ d. true)
      (order_by (λ d. d.sequence)
        (find_by
          (λ d. is_outstanding recipient d && ltb d.webhook_attempt_count max_webhook_attempts)
          db.deliveries))

-- What is sent: the claimed row and its payload.
abbrev pub Push : Type 0
Push = Option (DeliveryEntity × Payload)

unfoldable pub send_claimed : Option DeliveryEntity → M Push
send_claimed none = pure none
send_claimed (some d) = do payload ← serialize_delivery_by_id d.id; pure (some (d, payload))

unfoldable pub push_outstanding : Environment → ℕ → Bool → Option DeliveryEntity → M Push
unfolding send_claimed
push_outstanding e now may_wake none = pure none
push_outstanding e now may_wake (some d) = do
  active ← ensure_delivery_is_active now d
  if not active || is_held now d || not may_wake then pure none else do
    claimed ←
        claim_delivery_attempt now d DeliveryChannel.webhook
          (now + webhook_request_timeout_ms e + 1000)
    send_claimed claimed

unfoldable pub begin_delivery : Environment → ℕ → AgentConnectionEntity → Bool → M Push
begin_delivery e now c may_wake = if not (can_push now c) then pure none else do
  earliest ← gets (load_earliest_outstanding_delivery c.agent_id)
  push_outstanding e now may_wake earliest

-- The third failure in a row, and each after it, blocks the webhook for 30 seconds.
unfoldable pub record_webhook_failure : ℕ → ℕ → M (Unit {0})
record_webhook_failure now i db = (
  ok tt,
  record db {
    connections =
        update (λ (c : AgentConnectionEntity). c.id == i)
          (λ c. record c {
            webhook_consecutive_failures = c.webhook_consecutive_failures + 1;
            webhook_blocked_until =
                if leb 2 c.webhook_consecutive_failures
                then some (now + 30000)
                else c.webhook_blocked_until;
          })
          db.connections;
  },
)

abbrev pub clear_failures : ℕ → M (Unit {0})
clear_failures i db = (
  ok tt,
  record db {
    connections =
        update (λ (c : AgentConnectionEntity). c.id == i)
          (λ c. record c { webhook_consecutive_failures = 0; webhook_blocked_until = none })
          db.connections;
  },
)

-- The last push was taken, and the agent cannot poll for what it did not acknowledge.
abbrev pub is_spent : DeliveryEntity → Bool → Bool
is_spent seen polling = not polling && is_push_exhausted seen

abbrev pub pushed_row : Environment → ℕ → DeliveryEntity → Bool → DeliveryEntity → DeliveryEntity
pushed_row e now seen polling d = record d {
  last_error = if is_spent seen polling then some DeliveryError.budget_exhausted else none;
  status = if is_spent seen polling then DeliveryStatus.dead_letter else d.status;
  dead_lettered_at = if is_spent seen polling then some now else d.dead_lettered_at;
  next_attempt_at =
      if is_push_exhausted seen
      then none
      else some (next_attempt_at e now seen.webhook_attempt_count);
}

unfoldable pub accept_push : Environment → ℕ → DeliveryEntity → Bool → M (Unit {0})
unfolding update_deliveries
accept_push e now seen polling db =
    (ok tt, update_deliveries now (is_attempt_of seen) (pushed_row e now seen polling) db)

abbrev is_success : ℕ → Bool
is_success code = leb 200 code && ltb code 300

abbrev pub reject_push :
    Environment → ℕ → AgentConnectionEntity → DeliveryEntity → DeliveryError → M (Unit {0})
reject_push e now c seen message = do
  record_webhook_failure now c.id
  mark_delivery_attempt_failure e now seen message c.polling_enabled

abbrev pub take_answer : Environment → ℕ → AgentConnectionEntity → DeliveryEntity → M (Unit {0})
take_answer e now c seen = do clear_failures c.id; accept_push e now seen c.polling_enabled

-- The connection is the one that was loaded at the start.
unfoldable pub finish_delivery :
    Environment → ℕ → AgentConnectionEntity → DeliveryEntity → WebhookResponse → M (Unit {0})
finish_delivery e now c seen (WebhookResponse.answered code) =
    if is_success code
    then take_answer e now c seen
    else reject_push e now c seen (DeliveryError.http_status code)
finish_delivery e now c seen WebhookResponse.timed_out =
    reject_push e now c seen DeliveryError.timed_out
finish_delivery e now c seen WebhookResponse.broken =
    reject_push e now c seen DeliveryError.delivery_failed
