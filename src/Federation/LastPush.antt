-- ===== src/Federation/LastPush.antt =====
-- How the life of a delivery ends when nobody acknowledges it.
use agentschat.Prelude.{
  ℕ, ◌≡◌, refl, Bool, true, false, ◌&&◌, List, Option, some, arith, leb, ltb, if◌then◌else◌,
}
use agentschat.Prelude.Table.{find_one, exists, update}
use agentschat.Prelude.Rows.{find_one-update_kept, exists-update_none}
use agentschat.Federation.Store.{
  DeliveryEntity, DeliveryError, AgentConnectionEntity, FederationDb, M, Environment,
  is_dead_letter, delivery_by_id, touched, update_deliveries,
}
use agentschat.Federation.Attempts.{
  is_attempt_of, is_push_exhausted, is_overdue, failed_row, expired_row,
  mark_delivery_attempt_failure, expire_due_deliveries,
}
use agentschat.Federation.Webhooks.{
  WebhookResponse, pushed_row, record_webhook_failure, accept_push, finish_delivery, reject_push,
  take_answer,
}

-- A row as dead at a time.
pub record IsDead (now i : ℕ) (ds : List DeliveryEntity) : Type 0 where
  pub row : DeliveryEntity
  pub found : find_one (delivery_by_id i) ds ≡ some row
  pub dead : is_dead_letter row.status ≡ true
  pub since : row.dead_lettered_at ≡ some now

-- An update that kills what it changes.
update-IsDead :
    (now i : ℕ) (p : DeliveryEntity → Bool) (f : DeliveryEntity → DeliveryEntity)
    (xs : List DeliveryEntity) (d : DeliveryEntity)
    → ((x : DeliveryEntity) → (f x).id ≡ x.id)
    → find_one (delivery_by_id i) xs ≡ some d
    → p d ≡ true
    → is_dead_letter (f d).status ≡ true
    → (f d).dead_lettered_at ≡ some now
    → IsDead now i (update p f xs)
update-IsDead now i p f xs d keeps found fits dead since =
    let after = find_one-update_kept (delivery_by_id i) p f (λ x. ground (arith, keeps x)) xs in
    record { row = f d; found = ground arith; dead = dead; since = since }

either-IsDead :
    (now i : ℕ) (b : Bool) (m n : M (Unit {0})) (db : FederationDb)
    → IsDead now i (m db).1.deliveries
    → IsDead now i (n db).1.deliveries
    → IsDead now i ((if b then m else n) db).1.deliveries
either-IsDead now i true m n db h k = h
either-IsDead now i false m n db h k = k

module _ (e : Environment) (now : ℕ) (c : AgentConnectionEntity) (seen d : DeliveryEntity)
    (db : FederationDb) (found : find_one (delivery_by_id seen.id) db.deliveries ≡ some d)
    (same : is_attempt_of seen d ≡ true) (last : is_push_exhausted seen ≡ true)
    (webhook_only : c.polling_enabled ≡ false) where
  reject-IsDead :
      (x : DeliveryError) → IsDead now seen.id (reject_push e now c seen x db).1.deliveries
  unfolding record_webhook_failure mark_delivery_attempt_failure update_deliveries
  reject-IsDead x =
      update-IsDead now seen.id (is_attempt_of seen)
        (touched now (failed_row e now seen x c.polling_enabled)) db.deliveries d (λ x. refl) found
        same (ground arith) (ground arith)

  take-IsDead : IsDead now seen.id (take_answer e now c seen db).1.deliveries
  unfolding accept_push update_deliveries
  take-IsDead =
      update-IsDead now seen.id (is_attempt_of seen)
        (touched now (pushed_row e now seen c.polling_enabled)) db.deliveries d (λ x. refl) found
        same (ground arith) (ground arith)

  -- The third push of a delivery is its last one where its agent cannot poll: whatever becomes of
  -- the request, a success included, the delivery is dead afterwards, unless something else has
  -- happened to it since the push was claimed.
  pub finish_delivery-IsDead :
      (w : WebhookResponse) → IsDead now seen.id (finish_delivery e now c seen w db).1.deliveries
  unfolding finish_delivery
  finish_delivery-IsDead (WebhookResponse.answered code) =
      either-IsDead now seen.id (leb 200 code && ltb code 300) _ _ db take-IsDead
        (reject-IsDead (DeliveryError.http_status code))
  finish_delivery-IsDead WebhookResponse.timed_out = reject-IsDead DeliveryError.timed_out
  finish_delivery-IsDead WebhookResponse.broken = reject-IsDead DeliveryError.delivery_failed

-- After an expiry run no delivery of those it is for still waits although its window is over.
expire_due_deliveries_settles :
    (now : ℕ) (recipient : Option ℕ) (db : FederationDb)
    → exists (is_overdue now recipient) (expire_due_deliveries now recipient db).1.deliveries
      ≡ false
unfolding expire_due_deliveries update_deliveries
expire_due_deliveries_settles now recipient db =
    exists-update_none (is_overdue now recipient) (touched now (expired_row now)) (λ d h. refl)
      db.deliveries
