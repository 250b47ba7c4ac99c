-- ===== src/Federation/Poll.antt =====
-- `pollDeliveries` and `collectPollableDeliveries`, without the community filters: an agent takes its
-- outstanding deliveries in order, under a lease.
use agentschat.Prelude.{
  ℕ, zero, suc, ◌+◌, ◌*◌, Bool, true, false, not, ◌&&◌, ◌||◌, List, [], ◌∷◌, Option, none, some,
  ltb, leb, ◌==◌, or_else, holds, if◌then◌else◌,
}
use agentschat.Prelude.Table.{find_one, find_by, insert_row, order_by, delete}
use agentschat.Prelude.Action.{
  Result, pure, gets, throw, throw_if, or_throw, in_transaction, ok, ◌>>=◌, ◌>>◌,
}
use agentschat.Text.{Text, codes, trim, parse_not_negative, same_text}
use agentschat.Federation.Store.{
  DeliveryStatus, DeliveryChannel, DeliveryEntity, EventEntity, PollLease, FederationDb, Refusal, M,
  Environment, FederatedAgent, delivery_by_id, is_active,
}
use agentschat.Federation.Attempts.{
  next_attempt_at, claim_delivery_attempt, ensure_delivery_is_active, expire_due_deliveries,
}
use agentschat.Federation.Presence.{record_agent_activity}

-- A direct message is `dm.received` for all but its author.
unfoldable pub external_event_type : DeliveryEntity → EventEntity → Text
unfolding same_text
external_event_type d e =
    if same_text e.event_type (codes "dm.send") && not (holds e.actor_agent_id d.recipient_agent_id)
    then codes "dm.received"
    else e.event_type

-- What an agent gets of a delivery; the event's content is left out. `cursor` is its sequence.
pub record Payload : Type 0 where
  pub delivery_id : ℕ
  pub sequence : ℕ
  pub status : DeliveryStatus
  pub channel : DeliveryChannel
  pub expires_at : ℕ
  pub attempt_count : ℕ
  pub webhook_attempt_count : ℕ
  pub event_id : ℕ
  pub event_type : Text

unfoldable pub serialize_delivery_by_id : ℕ → M Payload
unfolding external_event_type
serialize_delivery_by_id i = do
  found ← gets (λ db. find_one (delivery_by_id i) db.deliveries)
  d ← or_throw found Refusal.delivery_not_found
  there ← gets (λ db. find_one (λ (e : EventEntity). e.id == d.event_id) db.events)
  event ← or_throw there Refusal.event_not_found
  pure (record {
    delivery_id = d.id;
    sequence = d.sequence;
    status = d.status;
    channel = d.delivery_channel;
    expires_at = d.replay_expires_at;
    attempt_count = d.attempt_count;
    webhook_attempt_count = d.webhook_attempt_count;
    event_id = event.id;
    event_type = external_event_type d event;
  })

abbrev pub take : ℕ → List DeliveryEntity → List DeliveryEntity
take zero ds = []
take (suc n) [] = []
take (suc n) (d ∷ ds) = d ∷ take n ds

abbrev pub is_outstanding : ℕ → DeliveryEntity → Bool
is_outstanding recipient d = d.recipient_agent_id == recipient && is_active d.status

abbrev pub is_held : ℕ → DeliveryEntity → Bool
is_held now d = elim d.next_attempt_at [ none ↦ false | some t ↦ ltb now t ]

-- The deliveries of a recipient that may still be replayed, in order.
unfoldable pub outstanding_batch : ℕ → ℕ → ℕ → FederationDb → List DeliveryEntity
outstanding_batch now recipient limit db = take limit (
    order_by (λ d. d.sequence)
      (find_by (λ d. is_outstanding recipient d && ltb now d.replay_expires_at) db.deliveries))

abbrev pub add_claimed : Option DeliveryEntity → M (List Payload) → M (List Payload)
add_claimed none rest = rest
add_claimed (some d) rest = do
  payload ← serialize_delivery_by_id d.id
  payloads ← rest
  pure (payload ∷ payloads)

-- The first delivery that is held back ends the batch.
unfoldable pub collect_from : Environment → ℕ → List DeliveryEntity → M (List Payload)
collect_from e now [] = pure []
collect_from e now (d ∷ ds) = do
  let rest = collect_from e now ds
  active ← ensure_delivery_is_active now d
  if not active then rest else if is_held now d then pure [] else do
    claimed ←
        claim_delivery_attempt now d DeliveryChannel.polling
          (next_attempt_at e now (d.attempt_count + 1))
    add_claimed claimed rest

abbrev pub bounded_limit : Option ℕ → ℕ
bounded_limit limit = or_else limit 1

unfoldable pub collect_pollable_deliveries : Environment → ℕ → ℕ → Option ℕ → M (List Payload)
unfolding outstanding_batch
collect_pollable_deliveries e now recipient limit = do
  throw_if (ltb (bounded_limit limit) 1 || ltb 50 (bounded_limit limit)) Refusal.invalid_limit
  batch ← gets (outstanding_batch now recipient (bounded_limit limit))
  collect_from e now batch

-- `parseCursor`
unfoldable pub parse_cursor : Option Text → M (Option ℕ)
parse_cursor none = pure none
parse_cursor (some s) = elim (trim s) [
  | [] ↦ pure none
  | c ∷ t ↦ elim (parse_not_negative s) [
    | none ↦ throw Refusal.invalid_cursor
    | some n ↦ pure (some n)
  ]
]

-- `normalizeWaitSeconds`, of a number that is not negative
abbrev pub normalize_wait_seconds : Option ℕ → ℕ
normalize_wait_seconds none = 0
normalize_wait_seconds (some s) = if ltb s 5 then s else 5

abbrev pub lease_of : ℕ → PollLease → Bool
lease_of agent l = l.agent_id == agent

unfoldable pub count_leases : ℕ → List PollLease → ℕ
count_leases agent [] = 0
count_leases agent (l ∷ ls) =
    let rest = count_leases agent ls in if lease_of agent l then suc rest else rest

abbrev pub drop_expired_leases : ℕ → ℕ → M (Unit {0})
drop_expired_leases now agent db =
    (ok tt, record db { leases = delete (λ l. lease_of agent l && leb l.expires_at now) db.leases })

abbrev pub save_lease : ℕ → ℕ → M ℕ
save_lease agent expires db = (
  ok db.next_id,
  record db {
    leases =
        insert_row db.leases (record { id = db.next_id; agent_id = agent; expires_at = expires });
    next_id = suc db.next_id;
  },
)

unfoldable pub take_lease : ℕ → ℕ → ℕ → M ℕ
take_lease now agent deadline = do
  drop_expired_leases now agent
  open_polls ← gets (λ db. count_leases agent db.leases)
  throw_if (leb 2 open_polls) Refusal.poll_concurrency_limit
  save_lease agent (deadline + 5000)

-- At most two polls of an agent at a time.
unfoldable pub open_lease : ℕ → ℕ → ℕ → M ℕ
unfolding take_lease
open_lease now agent deadline = in_transaction (take_lease now agent deadline)

abbrev drop_lease : ℕ → FederationDb → FederationDb
drop_lease i db = record db { leases = delete (λ l. l.id == i) db.leases }

-- `finally`: the lease goes, whether the work returned or threw.
abbrev close_lease :
    {A : Type 0} → ℕ → Result Refusal A × FederationDb → Result Refusal A × FederationDb
close_lease i (r, db) = (r, drop_lease i db)

abbrev pub holding_lease : {A : Type 0} → ℕ → M A → M A
holding_lease i m db = close_lease i (m db)

pub record PollResult : Type 0 where
  pub cursor : Option ℕ
  pub deliveries : List Payload

-- The last delivery's cursor, or the request's.
abbrev pub last_cursor : Option ℕ → List Payload → Option ℕ
last_cursor cursor [] = cursor
last_cursor cursor (p ∷ ps) = last_cursor (some p.sequence) ps

abbrev is_empty : List Payload → Bool
is_empty [] = true
is_empty (p ∷ ps) = false

abbrev pub answer_poll : ℕ → FederatedAgent → PollResult → M PollResult
answer_poll now agent r = do record_agent_activity now agent true; pure r

-- The times at which the loop looks; when they end, the request was aborted.
unfoldable pub poll_rounds :
    Environment → FederatedAgent → Option ℕ → Option ℕ → ℕ → List ℕ → M PollResult
poll_rounds e agent cursor limit deadline [] = pure (record { cursor = cursor; deliveries = [] })
poll_rounds e agent cursor limit deadline (t ∷ ts) = do
  let rest = poll_rounds e agent cursor limit deadline ts
  payloads ← collect_pollable_deliveries e t agent.id limit
  if not (is_empty payloads) || leb deadline t
      then answer_poll t agent
          (record { cursor = last_cursor cursor payloads; deliveries = payloads })
      else rest

unfoldable pub poll_deliveries :
    Environment → ℕ → FederatedAgent → Option Text → Option ℕ → Option ℕ → List ℕ → M PollResult
poll_deliveries e now agent cursor limit wait times = do
  throw_if (not agent.polling_enabled) Refusal.polling_not_enabled
  let deadline = now + normalize_wait_seconds wait * 1000
  from ← parse_cursor cursor
  lease ← open_lease now agent.id deadline
  holding_lease lease
      (do expire_due_deliveries now (some agent.id); poll_rounds e agent from limit deadline times)
