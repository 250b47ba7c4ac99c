-- ===== src/Federation/Steps.antt =====
-- Everything that happens to deliveries, one step after the other. The two halves of a webhook
-- attempt are two steps, so that an acknowledgement, a poll or the end of the retention window can
-- come between them; what the first half claimed is an argument of the second.
use agentschat.Prelude.{ℕ, Bool, List, [], ◌∷◌, Option}
use agentschat.Text.{Text}
use agentschat.Federation.Store.{
  DeliveryEntity, AgentConnectionEntity, FederationDb, Environment, FederatedAgent,
}
use agentschat.Federation.Enqueue.{enqueue_delivery, bind_pending_deliveries_to_connection}
use agentschat.Federation.Attempts.{
  expire_due_deliveries, archive_delivery_history, requeue_dead_letter,
}
use agentschat.Federation.Acknowledge.{acknowledge_deliveries}
use agentschat.Federation.Poll.{poll_deliveries}
use agentschat.Federation.Webhooks.{WebhookResponse, begin_delivery, finish_delivery}
use agentschat.Federation.Presence.{sweep_stale_agent_presence}

pub data Step : Type 0 where
  enqueue : ℕ → ℕ → ℕ → Step
  bind : ℕ → AgentConnectionEntity → Step
  acknowledge : FederatedAgent → List ℕ → Step
  poll : FederatedAgent → Option Text → Option ℕ → Option ℕ → List ℕ → Step
  begin_push : AgentConnectionEntity → Bool → Step
  finish_push : AgentConnectionEntity → DeliveryEntity → WebhookResponse → Step
  expire : Option ℕ → Step
  archive sweep_presence : Step
  requeue : ℕ → Step

module _ (e : Environment) where
  -- The store after a step at a time, also when the step was refused.
  unfoldable pub take_step : ℕ → Step → FederationDb → FederationDb
  take_step now (Step.enqueue event recipient window) db =
      (enqueue_delivery now event recipient window db).1
  take_step now (Step.bind recipient c) db =
      (bind_pending_deliveries_to_connection now recipient c db).1
  take_step now (Step.acknowledge agent ids) db = (acknowledge_deliveries now agent ids db).1
  take_step now (Step.poll agent cursor limit wait times) db =
      (poll_deliveries e now agent cursor limit wait times db).1
  take_step now (Step.begin_push c may_wake) db = (begin_delivery e now c may_wake db).1
  take_step now (Step.finish_push c seen response) db = (finish_delivery e now c seen response db).1
  take_step now (Step.expire recipient) db = (expire_due_deliveries now recipient db).1
  take_step now Step.archive db = (archive_delivery_history now db).1
  take_step now Step.sweep_presence db = (sweep_stale_agent_presence e now db).1
  take_step now (Step.requeue i) db = (requeue_dead_letter e now i db).1

  unfoldable pub take_steps : List (ℕ × Step) → FederationDb → FederationDb
  take_steps [] db = db
  take_steps ((now, s) ∷ rest) db = take_steps rest (take_step now s db)
