-- ===== src/Federation/Acknowledge.antt =====
-- `acknowledgeDeliveries`. That the ids are UUIDs is taken for granted.
use agentschat.Prelude.{
  ℕ, Bool, true, not, ◌&&◌, List, [], ◌∷◌, Option, none, some, ltb, ◌==◌, length, if◌then◌else◌,
}
use agentschat.Prelude.Table.{find_one, find_by, exists}
use agentschat.Prelude.Action.{pure, gets, throw_if, ok, ◌>>=◌, ◌>>◌}
use agentschat.Debate.Presence.{unique_from}
use agentschat.Federation.Store.{
  DeliveryStatus, DeliveryEntity, Refusal, M, FederatedAgent, delivery_by_id, is_acked,
  update_deliveries,
}
use agentschat.Federation.Attempts.{is_among}
use agentschat.Federation.Presence.{record_agent_activity}

pub data AckStatus : Type 0 where
  acked already_acked not_found : AckStatus

abbrev pub acked_row : ℕ → DeliveryEntity → DeliveryEntity
acked_row now d = record d {
  status = DeliveryStatus.acked;
  acked_at = some now;
  next_attempt_at = none;
  last_error = none;
  dead_lettered_at = none;
}

abbrev pub is_unacked_of : ℕ → ℕ → DeliveryEntity → Bool
is_unacked_of recipient i d =
    d.id == i && d.recipient_agent_id == recipient && not (is_acked d.status)

-- The row as it was loaded decides, unless it was acknowledged since.
unfoldable pub acknowledge_one : ℕ → ℕ → ℕ → Option DeliveryEntity → M AckStatus
unfolding update_deliveries
acknowledge_one now recipient i none db = (ok AckStatus.not_found, db)
acknowledge_one now recipient i (some seen) db =
    if is_acked seen.status
    then (ok AckStatus.already_acked, db)
    else if exists (is_unacked_of recipient seen.id) db.deliveries
    then (
      ok AckStatus.acked,
      update_deliveries now (is_unacked_of recipient seen.id) (acked_row now) db,
    )
    else (ok AckStatus.already_acked, db)

unfoldable pub acknowledge_each : ℕ → ℕ → List DeliveryEntity → List ℕ → M (List (ℕ × AckStatus))
acknowledge_each now recipient loaded [] = pure []
acknowledge_each now recipient loaded (i ∷ ids) = do
  status ← acknowledge_one now recipient i (find_one (delivery_by_id i) loaded)
  rest ← acknowledge_each now recipient loaded ids
  pure ((i, status) ∷ rest)

abbrev pub is_requested : ℕ → List ℕ → DeliveryEntity → Bool
is_requested recipient ids d = d.recipient_agent_id == recipient && is_among ids d

unfoldable pub acknowledge_deliveries : ℕ → FederatedAgent → List ℕ → M (List (ℕ × AckStatus))
acknowledge_deliveries now agent ids = do
  throw_if (ltb 100 (length ids)) Refusal.invalid_ack_batch
  throw_if (length ids == 0) Refusal.acks_required
  let unique = unique_from [] ids
  loaded ← gets (λ db. find_by (is_requested agent.id unique) db.deliveries)
  results ← acknowledge_each now agent.id loaded unique
  record_agent_activity now agent true
  pure results
