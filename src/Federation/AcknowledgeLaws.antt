-- ===== src/Federation/AcknowledgeLaws.antt =====
-- What an acknowledgement achieves.
use agentschat.Prelude.{
  ℕ, ◌≡◌, ◌∙◌, subst, inl, inr, true, false, List, [], ◌∷◌, some, arith, ◌==◌, length, ap, ◌≤◌,
}
use agentschat.Prelude.Action.{Result-cases}
use agentschat.Prelude.Table.{find_one, find_by, exists}
use agentschat.Prelude.Rows.{find_one-holds, find_one-find_by}
use agentschat.Debate.Presence.{unique_from}
use agentschat.Debate.Statuses.{unique_from-exists}
use agentschat.Federation.Store.{
  DeliveryEntity, FederationDb, FederatedAgent, delivery_by_id, is_acked,
}
use agentschat.Federation.Acknowledge.{is_requested, acknowledge_each, acknowledge_deliveries}
use agentschat.Federation.Presence.{record_agent_activity}
use agentschat.Federation.AcknowledgeSteps.{acknowledge_each-IsAcked}

module _ (now : ℕ) (a : FederatedAgent) where
  activity-deliveries :
      (db : FederationDb) → (record_agent_activity now a true db).1.deliveries ≡ db.deliveries
  unfolding record_agent_activity
  activity-deliveries db = ground arith

  abbrev loaded_for : List ℕ → FederationDb → List DeliveryEntity
  loaded_for ids db = find_by (is_requested a.id (unique_from [] ids)) db.deliveries

  abbrev settled_each : List ℕ → FederationDb → FederationDb
  settled_each ids db = (acknowledge_each now a.id (loaded_for ids db) (unique_from [] ids) db).1

  acknowledge_deliveries-store :
      (ids : List ℕ) (db : FederationDb)
      → length ids ≤ 100
      → (length ids == 0) ≡ false
      → (acknowledge_deliveries now a ids db).1.deliveries ≡ (settled_each ids db).deliveries
  unfolding acknowledge_deliveries
  acknowledge_deliveries-store ids db few there =
      elim (Result-cases
        (acknowledge_each now a.id (loaded_for ids db) (unique_from [] ids) db).0) [
          | inl (r, h) ↦ ground (arith, activity-deliveries (settled_each ids db))
          | inr (x', h) ↦ ground arith
        ]

not_empty : (i : ℕ) (ids : List ℕ) → exists (λ j. j == i) ids ≡ true → (length ids == 0) ≡ false
unfolding exists
not_empty i [] h = ground arith
not_empty i (j ∷ ids) h = ground arith

named_once :
    (i : ℕ) (ids : List ℕ)
    → exists (λ j. j == i) ids ≡ true
    → exists (λ j. j == i) (unique_from [] ids) ≡ true
unfolding exists
named_once i ids h = ground (arith, unique_from-exists [] ids i)

is_requested_own :
    (a : FederatedAgent) (i : ℕ) (ids : List ℕ) (d : DeliveryEntity)
    → exists (λ j. j == i) ids ≡ true
    → delivery_by_id i d ≡ true
    → d.recipient_agent_id ≡ a.id
    → is_requested a.id ids d ≡ true
is_requested_own a i ids d named here owned =
    let there : exists (λ j. j == d.id) ids ≡ true =
      subst (λ k. exists (λ j. j == k) ids ≡ true) (ground arith) named in
    ground arith

-- Where an agent acknowledges at most 100 deliveries, each of them that is its own is acknowledged
-- afterwards, in whatever state it was and however often it was named.
pub acknowledge_deliveries-acked :
    (now : ℕ) (a : FederatedAgent) (ids : List ℕ) (db : FederationDb) (i : ℕ) (d : DeliveryEntity)
    → length ids ≤ 100
    → exists (λ j. j == i) ids ≡ true
    → find_one (delivery_by_id i) db.deliveries ≡ some d
    → d.recipient_agent_id ≡ a.id
    → (d' : DeliveryEntity) × (find_one
          (delivery_by_id i)
          (acknowledge_deliveries now a ids db).1.deliveries
        ≡ some d')
      × (is_acked d'.status ≡ true)
acknowledge_deliveries-acked now a ids db i d few named found owned =
    let here = find_one-holds (delivery_by_id i) db.deliveries d found in
    let asked = named_once i ids named in
    let wanted = is_requested_own a i (unique_from [] ids) d asked here owned in
    let k =
      acknowledge_each-IsAcked now a i (unique_from [] ids) (loaded_for now a ids db) db
        (record {
          row = d;
          seen = d;
          found = found;
          known =
              find_one-find_by (delivery_by_id i) (is_requested a.id (unique_from [] ids))
                db.deliveries d found wanted;
          owned = owned;
          behind = λ h. h;
        })
        asked in
    (
      k.row,
      ap (λ ds. find_one (delivery_by_id i) ds)
            (acknowledge_deliveries-store now a ids db few (not_empty i ids named))
          ∙ k.found,
      k.acked,
    )
