-- ===== src/Federation/Attempts.antt =====
-- One attempt at a delivery: `claimDeliveryAttempt`, `markDeliveryAttemptFailure`,
-- `ensureDeliveryIsActive`, `expireDueDeliveries`, `nextAttemptAt`; the terminal rows:
-- `archiveDeliveryHistory`, and `requeueDeadLetter` of moderation.service.ts.
use agentschat.Prelude.{
  ℕ, zero, suc, ◌+◌, ◌-◌, Bool, true, false, not, ◌&&◌, ◌||◌, List, [], ◌∷◌, Option, none, some,
  ltb, leb, ◌==◌, or_else, is_some, length, if◌then◌else◌,
}
use agentschat.Prelude.Table.{find_one, find_by, exists, update, order_by}
use agentschat.Prelude.Action.{gets, throw_if, or_throw, ok, ◌>>=◌, ◌>>◌}
use agentschat.Federation.Store.{
  DeliveryStatus, DeliveryChannel, DeliveryError, DeliveryEntity, Refusal, M, Environment,
  retry_schedule_ms, max_webhook_attempts, delivery_retention_ms, delivery_history_archive_after_ms,
  delivery_by_id, is_active, is_acked, is_dead_letter, update_deliveries,
}

-- `schedule[Math.min(n, schedule.length - 1)] ?? 0`
unfoldable pub delay_ms : List ℕ → ℕ → ℕ
delay_ms [] n = 0
delay_ms (d ∷ []) n = d
delay_ms (d ∷ e ∷ ds) zero = d
delay_ms (d ∷ e ∷ ds) (suc n) = delay_ms (e ∷ ds) n

unfoldable pub next_attempt_at : Environment → ℕ → ℕ → ℕ
unfolding delay_ms
next_attempt_at e now attempts = now + delay_ms (retry_schedule_ms e) attempts

-- The condition under which an attempt's updates apply: the row is still active, and no other
-- attempt was counted since.
abbrev pub is_attempt_of : DeliveryEntity → DeliveryEntity → Bool
is_attempt_of seen d =
    d.id == seen.id && is_active d.status && d.attempt_count == seen.attempt_count

-- The row as claimed by the attempt, from the copy that was loaded.
abbrev pub claimed_row : ℕ → DeliveryChannel → ℕ → DeliveryEntity → DeliveryEntity → DeliveryEntity
claimed_row now channel next seen d = record d {
  attempt_count = seen.attempt_count + 1;
  webhook_attempt_count = elim channel [
    | DeliveryChannel.webhook ↦ seen.webhook_attempt_count + 1
    | DeliveryChannel.polling ↦ d.webhook_attempt_count
  ];
  delivery_channel = channel;
  last_attempt_at = some now;
  status = if seen.attempt_count == 0 then DeliveryStatus.sent else DeliveryStatus.retrying;
  next_attempt_at = some next;
}

-- The claimed copy, or nothing where the row has changed.
unfoldable pub claim_delivery_attempt :
    ℕ → DeliveryEntity → DeliveryChannel → ℕ → M (Option DeliveryEntity)
unfolding update_deliveries
claim_delivery_attempt now seen channel next db =
    if exists (is_attempt_of seen) db.deliveries
    then (
      ok (some (claimed_row now channel next seen seen)),
      update_deliveries now (is_attempt_of seen) (claimed_row now channel next seen) db,
    )
    else (ok none, db)

abbrev pub is_expired : ℕ → DeliveryEntity → Bool
is_expired now d = leb d.replay_expires_at now

abbrev pub is_push_exhausted : DeliveryEntity → Bool
is_push_exhausted d = leb max_webhook_attempts d.webhook_attempt_count

-- The attempt is dead-lettered: its window is over, or it has used up its pushes and its agent
-- cannot poll.
abbrev pub is_given_up : ℕ → DeliveryEntity → Bool → Bool
is_given_up now seen polling = is_expired now seen || is_push_exhausted seen && not polling

abbrev pub failed_row :
    Environment → ℕ → DeliveryEntity → DeliveryError → Bool → DeliveryEntity → DeliveryEntity
failed_row e now seen message polling d = record d {
  last_error = some message;
  status =
      if is_given_up now seen polling then DeliveryStatus.dead_letter else DeliveryStatus.retrying;
  dead_lettered_at = if is_given_up now seen polling then some now else none;
  next_attempt_at =
      if is_expired now seen || is_push_exhausted seen
      then none
      else some (next_attempt_at e now seen.webhook_attempt_count);
}

unfoldable pub mark_delivery_attempt_failure :
    Environment → ℕ → DeliveryEntity → DeliveryError → Bool → M (Unit {0})
unfolding update_deliveries
mark_delivery_attempt_failure e now seen message polling db =
    (ok tt, update_deliveries now (is_attempt_of seen) (failed_row e now seen message polling) db)

abbrev pub expired_row : ℕ → DeliveryEntity → DeliveryEntity
expired_row now d = record d {
  status = DeliveryStatus.dead_letter;
  dead_lettered_at = some now;
  next_attempt_at = none;
  last_error = some DeliveryError.window_expired;
}

unfoldable pub ensure_delivery_is_active : ℕ → DeliveryEntity → M Bool
unfolding update_deliveries
ensure_delivery_is_active now seen db =
    if is_acked seen.status || is_dead_letter seen.status
    then (ok false, db)
    else if is_expired now seen
    then (ok false, update_deliveries now (is_attempt_of seen) (expired_row now) db)
    else (ok true, db)

abbrev is_of : Option ℕ → DeliveryEntity → Bool
is_of none d = true
is_of (some recipient) d = d.recipient_agent_id == recipient

-- The window of a waiting delivery is over.
abbrev pub is_overdue : ℕ → Option ℕ → DeliveryEntity → Bool
is_overdue now recipient d = is_active d.status && is_expired now d && is_of recipient d

-- Of one recipient, or of all.
unfoldable pub expire_due_deliveries : ℕ → Option ℕ → M (Unit {0})
unfolding update_deliveries
expire_due_deliveries now recipient db =
    (ok tt, update_deliveries now (is_overdue now recipient) (expired_row now) db)

-- `COALESCE(acked_at, dead_lettered_at, updated_at)`
abbrev pub settled_at : DeliveryEntity → ℕ
settled_at d = elim d.acked_at [ some t ↦ t | none ↦ or_else d.dead_lettered_at d.updated_at ]

abbrev pub is_archivable : ℕ → DeliveryEntity → Bool
is_archivable now d =
    not (is_some d.archived_at)
    && (is_acked d.status || is_dead_letter d.status)
    && ltb (settled_at d) (now - delivery_history_archive_after_ms)

abbrev pub take_ids : ℕ → List DeliveryEntity → List ℕ
take_ids zero ds = []
take_ids (suc n) [] = []
take_ids (suc n) (d ∷ ds) = d.id ∷ take_ids n ds

abbrev pub is_among : List ℕ → DeliveryEntity → Bool
is_among ids d = exists (λ i. i == d.id) ids

-- At most 500 terminal rows that were settled 30 days ago, oldest first.
unfoldable pub archive_delivery_history : ℕ → M ℕ
archive_delivery_history now db =
    let ids =
      take_ids 500
        (order_by settled_at (order_by (λ d. d.id) (find_by (is_archivable now) db.deliveries))) in
    (
      ok (length ids),
      record db {
        deliveries = update (is_among ids) (λ d. record d { archived_at = some now }) db.deliveries;
      },
    )

abbrev pub requeued_row : Environment → ℕ → DeliveryEntity → DeliveryEntity
requeued_row e now d = record d {
  status = DeliveryStatus.pending;
  attempt_count = 0;
  webhook_attempt_count = 0;
  replay_expires_at = now + delivery_retention_ms e;
  next_attempt_at = some now;
  dead_lettered_at = none;
  last_error = none;
  acked_at = none;
  archived_at = none;
}

abbrev pub is_dead_row : ℕ → DeliveryEntity → Bool
is_dead_row i d = d.id == i && is_dead_letter d.status

abbrev pub save_requeued : Environment → ℕ → ℕ → M (Unit {0})
save_requeued e now i db = (ok tt, update_deliveries now (is_dead_row i) (requeued_row e now) db)

-- The row is read again and returned.
unfoldable pub requeue_dead_letter : Environment → ℕ → ℕ → M DeliveryEntity
unfolding update_deliveries
requeue_dead_letter e now i = do
  found ← gets (λ db. find_one (delivery_by_id i) db.deliveries)
  delivery ← or_throw found Refusal.delivery_not_found
  throw_if (not (is_dead_letter delivery.status)) Refusal.not_dead_letter
  affected ← gets (λ db. exists (is_dead_row i) db.deliveries)
  throw_if (not affected) Refusal.changed_before_requeue
  save_requeued e now i
  again ← gets (λ db. find_one (delivery_by_id i) db.deliveries)
  or_throw again Refusal.delivery_not_found
