-- ===== src/Federation/Scenarios.antt =====
-- The theorems at concrete deliveries: an agent with a webhook and one that polls.
use agentschat.Prelude.{ℕ, ◌≡◌, refl, true, false, List, [], ◌∷◌, none, some, arith}
use agentschat.Prelude.Table.{find_one, exists}
use agentschat.Prelude.Every.{every}
use agentschat.Prelude.Distinct.{distinct}
use agentschat.Text.{codes}
use agentschat.Domain.{AgentStatus}
use agentschat.Federation.Store.{
  DeliveryStatus, DeliveryChannel, ConnectionTransportMode, DeliveryEntity, AgentConnectionEntity,
  FederationDb, Environment, FederatedAgent, delivery_by_id, is_acked,
}
use agentschat.Federation.Attempts.{next_attempt_at}
use agentschat.Federation.Acknowledge.{acknowledge_deliveries}
use agentschat.Federation.Poll.{Payload, PollResult, poll_rounds}
use agentschat.Federation.Webhooks.{WebhookResponse, finish_delivery}
use agentschat.Federation.Steps.{Step, take_step, take_steps}
use agentschat.Federation.Phases.{Follows}
use agentschat.Federation.Refinement.{kind_of, take_step-Follows}
use agentschat.Federation.Settled.{take_steps-acknowledged}
use agentschat.Federation.Soundness.{is_sound, take_steps_sound}
use agentschat.Federation.Sequences.{is_orderly, take_steps-is_orderly}
use agentschat.Federation.AcknowledgeLaws.{acknowledge_deliveries-acked}
use agentschat.Federation.PollLaws.{poll_rounds_ends}
use agentschat.Federation.LastPush.{IsDead, finish_delivery-IsDead}

abbrev production : Environment
production = record { is_test = false; retention_ms = none; stale_after_seconds = 90 }

abbrev webhook_connection : AgentConnectionEntity
webhook_connection = record {
  id = 3;
  agent_id = 7;
  transport_mode = ConnectionTransportMode.webhook_mode;
  webhook_url = some (codes "https://agent.example");
  webhook_secret = some (codes "secret");
  polling_enabled = false;
  webhook_consecutive_failures = 0;
  webhook_blocked_until = none;
  last_heartbeat_at = none;
  last_seen_at = none;
}

abbrev polling_agent : FederatedAgent
polling_agent = record { id = 8; connection_id = 4; polling_enabled = true }

-- The first delivery was pushed three times; the second was not tried.
abbrev pushed_delivery : DeliveryEntity
pushed_delivery = record {
  id = 11;
  event_id = 1;
  recipient_agent_id = 7;
  agent_connection_id = some 3;
  sequence = 1;
  status = DeliveryStatus.retrying;
  delivery_channel = DeliveryChannel.webhook;
  attempt_count = 3;
  webhook_attempt_count = 3;
  last_attempt_at = some 100;
  next_attempt_at = some 11100;
  acked_at = none;
  replay_expires_at = 5000;
  dead_lettered_at = none;
  archived_at = none;
  last_error = none;
  updated_at = 100;
}

abbrev fresh_delivery : DeliveryEntity
fresh_delivery = record pushed_delivery {
  id = 12;
  recipient_agent_id = 8;
  agent_connection_id = some 4;
  status = DeliveryStatus.pending;
  attempt_count = 0;
  webhook_attempt_count = 0;
  last_attempt_at = none;
  next_attempt_at = some 100;
}

abbrev acked_delivery : DeliveryEntity
acked_delivery = record fresh_delivery {
  id = 13;
  event_id = 2;
  sequence = 2;
  status = DeliveryStatus.acked;
  next_attempt_at = none;
  acked_at = some 150;
}

abbrev two_agents : FederationDb
two_agents = record {
  deliveries = pushed_delivery ∷ fresh_delivery ∷ acked_delivery ∷ [];
  connections =
      webhook_connection
      ∷ record webhook_connection { id = 4; agent_id = 8; polling_enabled = true }
      ∷ [];
  agents =
      record { id = 7; status = AgentStatus.online; last_seen_at = none }
      ∷ record { id = 8; status = AgentStatus.offline; last_seen_at = none }
      ∷ [];
  events = record { id = 1; event_type = codes "dm.send"; actor_agent_id = some 9 } ∷ [];
  leases = [];
  next_id = 20;
}

-- A late answer to a push, a poll, an acknowledgement, the end of the window, and an event.
abbrev busy_day : List (ℕ × Step)
busy_day =
    (200, Step.finish_push webhook_connection pushed_delivery (WebhookResponse.answered 200))
    ∷ (300, Step.poll polling_agent none (some 5) none (300 ∷ []))
    ∷ (400, Step.acknowledge polling_agent (12 ∷ 13 ∷ []))
    ∷ (6000, Step.expire none)
    ∷ (7000, Step.enqueue 3 8 1000)
    ∷ []

take_step-Follows_example :
    (d' : DeliveryEntity) × (find_one
        (delivery_by_id 12)
        (take_step production 6000 (Step.expire none) two_agents).deliveries
      ≡ some d')
    × Follows (kind_of (Step.expire none)) fresh_delivery d'
unfolding find_one
take_step-Follows_example =
    take_step-Follows production 6000 (Step.expire none) two_agents 12 fresh_delivery refl

take_steps-acknowledged_example :
    (d' : DeliveryEntity) × (find_one
        (delivery_by_id 13)
        (take_steps production busy_day two_agents).deliveries
      ≡ some d')
    × (is_acked d'.status ≡ true)
    × (d'.acked_at ≡ some 150)
unfolding find_one
take_steps-acknowledged_example =
    take_steps-acknowledged production busy_day two_agents 13 acked_delivery refl refl

take_steps_sound_example :
    every is_sound (take_steps production busy_day two_agents).deliveries ≡ true
unfolding every
take_steps_sound_example = take_steps_sound production busy_day two_agents refl

take_steps-is_orderly_example :
    is_orderly (take_steps production busy_day two_agents).deliveries ≡ true
unfolding distinct exists
take_steps-is_orderly_example = take_steps-is_orderly production busy_day two_agents refl

acknowledge_deliveries-acked_example :
    (d' : DeliveryEntity) × (find_one
        (delivery_by_id 12)
        (acknowledge_deliveries 400 polling_agent (12 ∷ 11 ∷ []) two_agents).1.deliveries
      ≡ some d')
    × (is_acked d'.status ≡ true)
unfolding find_one exists
acknowledge_deliveries-acked_example =
    acknowledge_deliveries-acked 400 polling_agent (12 ∷ 11 ∷ []) two_agents 12 fresh_delivery
      (ground arith) refl refl refl

abbrev fresh_payload : Payload
fresh_payload = record {
  delivery_id = 12;
  sequence = 1;
  status = DeliveryStatus.sent;
  channel = DeliveryChannel.polling;
  expires_at = 5000;
  attempt_count = 1;
  webhook_attempt_count = 0;
  event_id = 1;
  event_type = codes "dm.received";
}

abbrev one_delivery : PollResult
one_delivery = record { cursor = some 1; deliveries = fresh_payload ∷ [] }

poll_rounds_ends_example :
    poll_rounds production polling_agent none none 250 (200 ∷ 300 ∷ 400 ∷ []) two_agents
    ≡ poll_rounds production polling_agent none none 250 (200 ∷ 300 ∷ []) two_agents
poll_rounds_ends_example =
    poll_rounds_ends production polling_agent none none 250 300 (200 ∷ []) (400 ∷ []) two_agents
      (ground arith)

finish_delivery-IsDead_example :
    IsDead 200 11
      (finish_delivery production 200 webhook_connection pushed_delivery
        (WebhookResponse.answered 200)
        two_agents).1.deliveries
unfolding find_one
finish_delivery-IsDead_example =
    finish_delivery-IsDead production 200 webhook_connection pushed_delivery pushed_delivery
      two_agents refl refl refl refl (WebhookResponse.answered 200)
