-- ===== src/Federation/RequestsKeep.antt =====
-- Requests, bookkeeping and revivals keep what the rows they write keep.
use agentschat.Prelude.{ℕ, ◌≡◌, refl, true, false, List, [], ◌∷◌, Option, none, some, arith}
use agentschat.Prelude.Keeps.{
  Keeps, Keeps-in_transaction, Keeps-bind, Keeps-then, Keeps-if, Keeps-pure, keeping,
}
use agentschat.Prelude.Table.{exists, find_one}
use agentschat.Federation.Store.{
  DeliveryEntity, AgentConnectionEntity, FederationDb, Environment, FederatedAgent, is_acked,
  is_dead_letter, update_deliveries, touched,
}
use agentschat.Federation.Enqueue.{
  keep_or_enqueue, enqueue_delivery, bind_pending_deliveries_to_connection, latest_sequence,
  same_delivery, new_delivery, channel_of,
}
use agentschat.Federation.Attempts.{
  archive_delivery_history, save_requeued, requeue_dead_letter, requeued_row, is_dead_row,
}
use agentschat.Federation.Acknowledge.{
  acked_row, acknowledge_one, acknowledge_each, acknowledge_deliveries, is_unacked_of,
}
use agentschat.Federation.Presence.{sweep_stale_agent_presence}
use agentschat.Federation.AttemptsKeep.{activity-Keeps}
use agentschat.Prelude.Table.{insert_row}
use agentschat.Prelude.Rows.{find_one-exists}
use agentschat.Federation.RowOrder.{RowOrder, on_store, same_deliveries, update_deliveries-Keeps}

-- A row that was archived, and one that was bound to a connection.
abbrev pub archived_row : ℕ → DeliveryEntity → DeliveryEntity
archived_row now d = record d { archived_at = some now }

abbrev pub bound_row : AgentConnectionEntity → DeliveryEntity → DeliveryEntity
bound_row c d = record d { agent_connection_id = some c.id; delivery_channel = channel_of c }

module _ (R : RowOrder)
    (archives : (now : ℕ) (d : DeliveryEntity) → R.Rel d (archived_row now d)) where
  pub archive-Keeps : (now : ℕ) → Keeps (on_store R) (archive_delivery_history now)
  unfolding archive_delivery_history
  archive-Keeps now = record {
    at = λ db. R.updates _ (archived_row now) (λ d. refl) (λ d h. archives now d) db.deliveries;
  }

module _ (R : RowOrder)
    (binds : (now : ℕ) (c : AgentConnectionEntity) (d : DeliveryEntity)
      → R.Rel d (touched now (bound_row c) d)) where
  pub bind-Keeps :
      (now recipient : ℕ) (c : AgentConnectionEntity)
      → Keeps (on_store R) (bind_pending_deliveries_to_connection now recipient c)
  unfolding bind_pending_deliveries_to_connection update_deliveries
  bind-Keeps now recipient c =
      update_deliveries-Keeps R _ now _ (bound_row c) (λ d. refl) (λ d h. binds now c d)

module _ (R : RowOrder) where
  pub sweep_presence-Keeps :
      (e : Environment) (now : ℕ) → Keeps (on_store R) (sweep_stale_agent_presence e now)
  unfolding sweep_stale_agent_presence
  sweep_presence-Keeps e now = same_deliveries R _ (λ db. refl)

module _ (R : RowOrder)
    (inserts : (now event recipient window : ℕ) (c : Option AgentConnectionEntity) (i : ℕ)
        (xs : List DeliveryEntity)
      → exists (same_delivery event recipient) xs ≡ false
      → R.Le xs (
          insert_row xs
            (new_delivery now event recipient window (latest_sequence recipient xs) c i))) where
  keep_or_enqueue-Le :
      (now event recipient window : ℕ) (db : FederationDb) (o : Option DeliveryEntity)
      → find_one (same_delivery event recipient) db.deliveries ≡ o
      → R.Le db.deliveries (keep_or_enqueue now event recipient window o db).1.deliveries
  unfolding keep_or_enqueue
  keep_or_enqueue-Le now event recipient window db (some d) h = R.le_refl db.deliveries
  keep_or_enqueue-Le now event recipient window db none h =
      inserts now event recipient window _ db.next_id db.deliveries
        (ground (arith, find_one-exists (same_delivery event recipient) db.deliveries))

  pub enqueue-Keeps :
      (now event recipient window : ℕ)
      → Keeps (on_store R) (enqueue_delivery now event recipient window)
  unfolding enqueue_delivery
  enqueue-Keeps now event recipient window =
      Keeps-in_transaction (on_store R) _
        (λ db d e. keep_or_enqueue-Le now event recipient window db _ refl)

-- The requests of one agent.
module _ (R : RowOrder) (a : FederatedAgent)
    (acks : (now i : ℕ) (d : DeliveryEntity)
      → is_unacked_of a.id i d ≡ true
      → R.Rel d (touched now (acked_row now) d)) where
  pub acknowledge_one-Keeps :
      (now i : ℕ) (o : Option DeliveryEntity) → Keeps (on_store R) (acknowledge_one now a.id i o)
  unfolding acknowledge_one update_deliveries
  acknowledge_one-Keeps now i none = Keeps-pure (on_store R) _
  acknowledge_one-Keeps now i (some seen) =
      Keeps-if (on_store R) (λ db. is_acked seen.status) _ _ (Keeps-pure (on_store R) _)
        (Keeps-if (on_store R) (λ db. exists (is_unacked_of a.id seen.id) db.deliveries) _ _
          (update_deliveries-Keeps R _ now (is_unacked_of a.id seen.id) (acked_row now) (λ d. refl)
            (acks now seen.id))
          (Keeps-pure (on_store R) _))

  pub acknowledge_each-Keeps :
      (now : ℕ) (loaded : List DeliveryEntity) (ids : List ℕ)
      → Keeps (on_store R) (acknowledge_each now a.id loaded ids)
  unfolding acknowledge_each
  acknowledge_each-Keeps now loaded [] = Keeps-pure (on_store R) []
  acknowledge_each-Keeps now loaded (i ∷ ids) =
      Keeps-bind (on_store R) _ _ (acknowledge_one-Keeps now i _) (λ status.
        Keeps-bind (on_store R) _ _ (acknowledge_each-Keeps now loaded ids)
          (λ rest. Keeps-pure (on_store R) _))

  pub acknowledge-Keeps :
      (now : ℕ) (ids : List ℕ) → Keeps (on_store R) (acknowledge_deliveries now a ids)
  unfolding acknowledge_deliveries
  acknowledge-Keeps now ids =
      search (keeping, Keeps-then, activity-Keeps, acknowledge_each-Keeps) depth 12

module _ (R : RowOrder)
    (requeues : (e : Environment) (now : ℕ) (d : DeliveryEntity)
      → is_dead_letter d.status ≡ true
      → R.Rel d (touched now (requeued_row e now) d)) where
  save_requeued-Keeps : (e : Environment) (now i : ℕ) → Keeps (on_store R) (save_requeued e now i)
  unfolding update_deliveries
  save_requeued-Keeps e now i =
      update_deliveries-Keeps R _ now (is_dead_row i) (requeued_row e now) (λ d. refl)
        (λ d h. requeues e now d (ground arith))

  pub requeue-Keeps :
      (e : Environment) (now i : ℕ) → Keeps (on_store R) (requeue_dead_letter e now i)
  unfolding requeue_dead_letter
  requeue-Keeps e now i = search (keeping, save_requeued-Keeps, Keeps-then) depth 12
