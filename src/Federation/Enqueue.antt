-- ===== src/Federation/Enqueue.antt =====
-- `enqueueDelivery` of database/enqueue-delivery.ts, and `bindPendingDeliveriesToConnection`.
use agentschat.Prelude.{
  ℕ, suc, ◌+◌, Bool, ◌&&◌, List, [], ◌∷◌, Option, none, some, ltb, ◌==◌, if◌then◌else◌,
}
use agentschat.Prelude.Table.{find_one, insert_row}
use agentschat.Prelude.Action.{pure, gets, in_transaction, ok, ◌>>=◌}
use agentschat.Federation.Store.{
  DeliveryStatus, DeliveryChannel, DeliveryEntity, AgentConnectionEntity, M, is_active,
  update_deliveries,
}

-- The recipient's highest sequence, 0 where there is none.
unfoldable pub latest_sequence : ℕ → List DeliveryEntity → ℕ
latest_sequence recipient [] = 0
latest_sequence recipient (d ∷ ds) =
    let rest = latest_sequence recipient ds in
    if d.recipient_agent_id == recipient && ltb rest d.sequence then d.sequence else rest

abbrev pub same_delivery : ℕ → ℕ → DeliveryEntity → Bool
same_delivery event recipient d = d.event_id == event && d.recipient_agent_id == recipient

abbrev pub channel_of : AgentConnectionEntity → DeliveryChannel
channel_of c = if c.polling_enabled then DeliveryChannel.polling else DeliveryChannel.webhook

abbrev pub channel_for : Option AgentConnectionEntity → DeliveryChannel
channel_for none = DeliveryChannel.webhook
channel_for (some c) = channel_of c

abbrev connection_id : Option AgentConnectionEntity → Option ℕ
connection_id none = none
connection_id (some c) = some c.id

abbrev pub new_delivery : ℕ → ℕ → ℕ → ℕ → ℕ → Option AgentConnectionEntity → ℕ → DeliveryEntity
new_delivery now event recipient window latest connection id = record {
  id = id;
  event_id = event;
  recipient_agent_id = recipient;
  agent_connection_id = connection_id connection;
  sequence = latest + 1;
  status = DeliveryStatus.pending;
  delivery_channel = channel_for connection;
  attempt_count = 0;
  webhook_attempt_count = 0;
  last_attempt_at = none;
  next_attempt_at = some now;
  acked_at = none;
  replay_expires_at = now + window;
  dead_lettered_at = none;
  archived_at = none;
  last_error = none;
  updated_at = now;
}

abbrev save_delivery : (ℕ → DeliveryEntity) → M DeliveryEntity
save_delivery row db = (
  ok (row db.next_id),
  record db { deliveries = insert_row db.deliveries (row db.next_id); next_id = suc db.next_id },
)

unfoldable pub keep_or_enqueue : ℕ → ℕ → ℕ → ℕ → Option DeliveryEntity → M DeliveryEntity
keep_or_enqueue now event recipient window (some d) = pure d
keep_or_enqueue now event recipient window none = do
  latest ← gets (λ db. latest_sequence recipient db.deliveries)
  connection ←
      gets (λ db. find_one (λ (c : AgentConnectionEntity). c.agent_id == recipient) db.connections)
  save_delivery (new_delivery now event recipient window latest connection)

-- One delivery for each event and recipient.
unfoldable pub enqueue_delivery : ℕ → ℕ → ℕ → ℕ → M DeliveryEntity
unfolding keep_or_enqueue
enqueue_delivery now event recipient window = in_transaction (do
  existing ← gets (λ db. find_one (same_delivery event recipient) db.deliveries)
  keep_or_enqueue now event recipient window existing)

unfoldable pub bind_pending_deliveries_to_connection : ℕ → ℕ → AgentConnectionEntity → M (Unit {0})
unfolding update_deliveries
bind_pending_deliveries_to_connection now recipient connection db = (
  ok tt,
  update_deliveries now (λ d. d.recipient_agent_id == recipient && is_active d.status)
      (λ d. record d {
        agent_connection_id = some connection.id;
        delivery_channel = channel_of connection;
      })
      db,
)
