-- ===== src/Federation/AttemptsKeep.antt =====
-- Attempts at deliveries keep what the rows they write keep.
use agentschat.Prelude.{
  ℕ, ◌≡◌, refl, Bool, true, false, ◌||◌, List, [], ◌∷◌, Option, none, some, arith,
}
use agentschat.Prelude.Keeps.{Keeps, Keeps-then, Keeps-if, Keeps-pure, Keeps-transaction, keeping}
use agentschat.Prelude.Table.{exists}
use agentschat.Text.{Text}
use agentschat.Federation.Store.{
  DeliveryChannel, DeliveryError, DeliveryEntity, AgentConnectionEntity, M, Environment,
  FederatedAgent, is_acked, is_dead_letter, update_deliveries,
}
use agentschat.Federation.Attempts.{
  is_expired, claimed_row, failed_row, expired_row, is_attempt_of, ensure_delivery_is_active,
  expire_due_deliveries, claim_delivery_attempt, mark_delivery_attempt_failure,
}
use agentschat.Federation.Poll.{
  Payload, serialize_delivery_by_id, collect_from, collect_pollable_deliveries, parse_cursor,
  take_lease, open_lease, holding_lease, poll_rounds, poll_deliveries, add_claimed,
  drop_expired_leases, save_lease,
}
use agentschat.Federation.Webhooks.{
  WebhookResponse, send_claimed, push_outstanding, begin_delivery, record_webhook_failure,
  accept_push, pushed_row, clear_failures, take_answer, reject_push, finish_delivery,
}
use agentschat.Federation.Presence.{record_agent_activity}
use agentschat.Federation.RowOrder.{
  RowOrder, AttemptRows, on_store, same_deliveries, update_deliveries-Keeps,
}

module _ (R : RowOrder) where
  pub activity-Keeps :
      (now : ℕ) (a : FederatedAgent) (heartbeat : Bool)
      → Keeps (on_store R) (record_agent_activity now a heartbeat)
  unfolding record_agent_activity
  activity-Keeps now a heartbeat = same_deliveries R _ (λ db. ground arith)

  pub serialize-Keeps : (i : ℕ) → Keeps (on_store R) (serialize_delivery_by_id i)
  unfolding serialize_delivery_by_id
  serialize-Keeps i = search keeping

module _ {Loaded : DeliveryEntity → Type 0} (R : RowOrder) (t : AttemptRows R Loaded) where
  claim_polling-Keeps :
      (now : ℕ) (seen : DeliveryEntity) (next : ℕ)
      → Keeps (on_store R) (claim_delivery_attempt now seen DeliveryChannel.polling next)
  unfolding claim_delivery_attempt update_deliveries
  claim_polling-Keeps now seen next =
      Keeps-if (on_store R) (λ db. exists (is_attempt_of seen) db.deliveries) _ _
        (update_deliveries-Keeps R _ now (is_attempt_of seen)
          (claimed_row now DeliveryChannel.polling next seen) (λ d. refl) (t.polled now next seen))
        (Keeps-pure (on_store R) none)

  claim_webhook-Keeps :
      (now : ℕ) (seen : DeliveryEntity) (next : ℕ)
      → Loaded seen
      → Keeps (on_store R) (claim_delivery_attempt now seen DeliveryChannel.webhook next)
  unfolding claim_delivery_attempt update_deliveries
  claim_webhook-Keeps now seen next l =
      Keeps-if (on_store R) (λ db. exists (is_attempt_of seen) db.deliveries) _ _
        (update_deliveries-Keeps R _ now (is_attempt_of seen)
          (claimed_row now DeliveryChannel.webhook next seen) (λ d. refl)
          (λ d. t.pushing now next seen d l))
        (Keeps-pure (on_store R) none)

  ensure_active-Keeps :
      (now : ℕ) (seen : DeliveryEntity) → Keeps (on_store R) (ensure_delivery_is_active now seen)
  unfolding ensure_delivery_is_active update_deliveries
  ensure_active-Keeps now seen =
      Keeps-if (on_store R) (λ db. is_acked seen.status || is_dead_letter seen.status) _ _
        (Keeps-pure (on_store R) false)
        (Keeps-if (on_store R) (λ db. is_expired now seen) _ _
          (update_deliveries-Keeps R _ now (is_attempt_of seen) (expired_row now) (λ d. refl)
            (λ d h. t.expired now d (ground arith)))
          (Keeps-pure (on_store R) true))

  mark_failure-Keeps :
      (e : Environment) (now : ℕ) (seen : DeliveryEntity) (x : DeliveryError) (polling : Bool)
      → Keeps (on_store R) (mark_delivery_attempt_failure e now seen x polling)
  unfolding mark_delivery_attempt_failure update_deliveries
  mark_failure-Keeps e now seen x polling =
      update_deliveries-Keeps R _ now (is_attempt_of seen) (failed_row e now seen x polling)
        (λ d. refl) (t.failed e now seen x polling)

  accept_push-Keeps :
      (e : Environment) (now : ℕ) (seen : DeliveryEntity) (polling : Bool)
      → Keeps (on_store R) (accept_push e now seen polling)
  unfolding accept_push update_deliveries
  accept_push-Keeps e now seen polling =
      update_deliveries-Keeps R _ now (is_attempt_of seen) (pushed_row e now seen polling)
        (λ d. refl) (t.pushed e now seen polling)

  pub expire-Keeps : (now : ℕ) (r : Option ℕ) → Keeps (on_store R) (expire_due_deliveries now r)
  unfolding expire_due_deliveries update_deliveries
  expire-Keeps now r =
      update_deliveries-Keeps R _ now _ (expired_row now) (λ d. refl)
        (λ d h. t.expired now d (ground arith))

  add_claimed-Keeps :
      (o : Option DeliveryEntity) (rest : M (List Payload))
      → Keeps (on_store R) rest
      → Keeps (on_store R) (add_claimed o rest)
  add_claimed-Keeps none rest h = h
  add_claimed-Keeps (some d) rest h = search (keeping, serialize-Keeps)

  collect_from-Keeps :
      (e : Environment) (now : ℕ) (ds : List DeliveryEntity)
      → Keeps (on_store R) (collect_from e now ds)
  unfolding collect_from
  collect_from-Keeps e now [] = Keeps-pure (on_store R) []
  collect_from-Keeps e now (d ∷ ds) =
      let rest = collect_from-Keeps e now ds in
      search (keeping, ensure_active-Keeps, claim_polling-Keeps, add_claimed-Keeps) depth 12

  collect-Keeps :
      (e : Environment) (now recipient : ℕ) (limit : Option ℕ)
      → Keeps (on_store R) (collect_pollable_deliveries e now recipient limit)
  unfolding collect_pollable_deliveries
  collect-Keeps e now recipient limit = search (keeping, collect_from-Keeps)

  poll_rounds-Keeps :
      (e : Environment) (a : FederatedAgent) (cursor limit : Option ℕ) (deadline : ℕ)
      (times : List ℕ)
      → Keeps (on_store R) (poll_rounds e a cursor limit deadline times)
  unfolding poll_rounds
  poll_rounds-Keeps e a cursor limit deadline [] = Keeps-pure (on_store R) _
  poll_rounds-Keeps e a cursor limit deadline (t ∷ ts) =
      let rest = poll_rounds-Keeps e a cursor limit deadline ts in
      search (keeping, collect-Keeps, activity-Keeps, Keeps-then) depth 12

  parse_cursor-Keeps : (s : Option Text) → Keeps (on_store R) (parse_cursor s)
  unfolding parse_cursor
  parse_cursor-Keeps s = same_deliveries R _ (λ db. ground arith)

  drop_expired-Keeps : (now agent : ℕ) → Keeps (on_store R) (drop_expired_leases now agent)
  drop_expired-Keeps now agent = same_deliveries R _ (λ db. refl)

  save_lease-Keeps : (agent expires : ℕ) → Keeps (on_store R) (save_lease agent expires)
  save_lease-Keeps agent expires = same_deliveries R _ (λ db. refl)

  take_lease-Keeps : (now agent deadline : ℕ) → Keeps (on_store R) (take_lease now agent deadline)
  unfolding take_lease
  take_lease-Keeps now agent deadline =
      search (keeping, Keeps-then, drop_expired-Keeps, save_lease-Keeps) depth 12

  open_lease-Keeps : (now agent deadline : ℕ) → Keeps (on_store R) (open_lease now agent deadline)
  unfolding open_lease
  open_lease-Keeps now agent deadline =
      Keeps-transaction (on_store R) _ (take_lease-Keeps now agent deadline)

  holding_lease-Keeps :
      {A : Type 0} (i : ℕ) (m : M A) → Keeps (on_store R) m → Keeps (on_store R) (holding_lease i m)
  holding_lease-Keeps i m h = record { at = h.at }

  pub poll-Keeps :
      (e : Environment) (now : ℕ) (a : FederatedAgent) (cursor : Option Text)
      (limit wait : Option ℕ) (times : List ℕ)
      → Keeps (on_store R) (poll_deliveries e now a cursor limit wait times)
  unfolding poll_deliveries
  poll-Keeps e now a cursor limit wait times =
      search
        (
          keeping, holding_lease-Keeps, parse_cursor-Keeps, open_lease-Keeps, expire-Keeps,
          poll_rounds-Keeps,
        )
        depth 12

  send_claimed-Keeps : (o : Option DeliveryEntity) → Keeps (on_store R) (send_claimed o)
  unfolding send_claimed
  send_claimed-Keeps none = Keeps-pure (on_store R) _
  send_claimed-Keeps (some d) = search (keeping, serialize-Keeps)

  -- The copy that was loaded is as `Loaded` says.
  pub push_outstanding-Keeps :
      (e : Environment) (now : ℕ) (may_wake : Bool) (o : Option DeliveryEntity)
      → ((d : DeliveryEntity) → o ≡ some d → Loaded d)
      → Keeps (on_store R) (push_outstanding e now may_wake o)
  unfolding push_outstanding
  push_outstanding-Keeps e now may_wake none l = Keeps-pure (on_store R) none
  push_outstanding-Keeps e now may_wake (some d) l =
      let claims = λ (n : ℕ). claim_webhook-Keeps now d n (l d refl) in
      search (keeping, ensure_active-Keeps, claims, send_claimed-Keeps) depth 12

  failure-Keeps : (now i : ℕ) → Keeps (on_store R) (record_webhook_failure now i)
  unfolding record_webhook_failure
  failure-Keeps now i = same_deliveries R _ (λ db. refl)

  clear-Keeps : (i : ℕ) → Keeps (on_store R) (clear_failures i)
  clear-Keeps i = same_deliveries R _ (λ db. refl)

  take_answer-Keeps :
      (e : Environment) (now : ℕ) (c : AgentConnectionEntity) (seen : DeliveryEntity)
      → Keeps (on_store R) (take_answer e now c seen)
  take_answer-Keeps e now c seen = search (Keeps-then, clear-Keeps, accept_push-Keeps)

  reject_push-Keeps :
      (e : Environment) (now : ℕ) (c : AgentConnectionEntity) (seen : DeliveryEntity)
      (x : DeliveryError)
      → Keeps (on_store R) (reject_push e now c seen x)
  reject_push-Keeps e now c seen x = search (Keeps-then, failure-Keeps, mark_failure-Keeps)

  pub finish_delivery-Keeps :
      (e : Environment) (now : ℕ) (c : AgentConnectionEntity) (seen : DeliveryEntity)
      (w : WebhookResponse)
      → Keeps (on_store R) (finish_delivery e now c seen w)
  unfolding finish_delivery
  finish_delivery-Keeps e now c seen (WebhookResponse.answered code) =
      search (keeping, take_answer-Keeps, reject_push-Keeps)
  finish_delivery-Keeps e now c seen WebhookResponse.timed_out =
      reject_push-Keeps e now c seen DeliveryError.timed_out
  finish_delivery-Keeps e now c seen WebhookResponse.broken =
      reject_push-Keeps e now c seen DeliveryError.delivery_failed

  -- Where nothing needs to be known of the copy.
  pub begin_delivery-Keeps :
      ((d : DeliveryEntity) → Loaded d)
      → (e : Environment) (now : ℕ) (c : AgentConnectionEntity) (may_wake : Bool)
      → Keeps (on_store R) (begin_delivery e now c may_wake)
  unfolding begin_delivery
  begin_delivery-Keeps loaded e now c may_wake =
      let pushes =
        λ (o : Option DeliveryEntity). push_outstanding-Keeps e now may_wake o (λ d h. loaded d) in
      search (keeping, pushes) depth 12
