-- ===== src/Federation/AcknowledgeSteps.antt =====
-- How the acknowledgement of one delivery after the other reaches each of them.
use agentschat.Prelude.{
  ℕ, ◌≡◌, refl, ◌∙◌, sym, subst, inl, inr, true, List, [], ◌∷◌, Option, none, some, arith, ◌==◌,
  Bool-cases,
}
use agentschat.Prelude.Action.{ok, Result-cases}
use agentschat.Prelude.Table.{find_one, exists}
use agentschat.Prelude.Rows.{find_one-update_kept, find_one-holds, find_one-exists_of}
use agentschat.Federation.Store.{
  DeliveryEntity, FederationDb, FederatedAgent, delivery_by_id, is_acked, touched,
  update_deliveries,
}
use agentschat.Federation.Acknowledge.{
  AckStatus, acked_row, is_unacked_of, acknowledge_one, acknowledge_each,
}
use agentschat.Federation.RequestsKeep.{acknowledge_one-Keeps, acknowledge_each-Keeps}
use agentschat.Federation.Phases.{Kind, following, stays_acked}
use agentschat.Federation.Refinement.{acked_row-Follows}

-- A row of the agent that is no longer waiting for its acknowledgement.
pub record IsAcked (a : FederatedAgent) (i : ℕ) (db : FederationDb) : Type 0 where
  pub row : DeliveryEntity
  pub found : find_one (delivery_by_id i) db.deliveries ≡ some row
  pub acked : is_acked row.status ≡ true

-- The agent's row, and what was loaded of it, which is not ahead of it.
pub record IsLoaded (a : FederatedAgent) (i : ℕ) (loaded : List DeliveryEntity) (db : FederationDb)
    : Type 0 where
  pub row : DeliveryEntity
  pub seen : DeliveryEntity
  pub found : find_one (delivery_by_id i) db.deliveries ≡ some row
  pub known : find_one (delivery_by_id i) loaded ≡ some seen
  pub owned : row.recipient_agent_id ≡ a.id
  pub behind : is_acked seen.status ≡ true → is_acked row.status ≡ true

module _ (now : ℕ) (a : FederatedAgent) where
  acknowledge_one_returns :
      (i : ℕ) (o : Option DeliveryEntity) (db : FederationDb)
      → (x : AckStatus) × ((acknowledge_one now a.id i o db).0 ≡ ok x)
  unfolding acknowledge_one
  acknowledge_one_returns i none db = (AckStatus.not_found, refl)
  acknowledge_one_returns i (some seen) db = elim (Bool-cases (is_acked seen.status)) [
    | inl h ↦ (AckStatus.already_acked, ground arith)
    | inr h ↦ elim (Bool-cases (exists (is_unacked_of a.id seen.id) db.deliveries)) [
      | inl there ↦ (AckStatus.acked, ground arith)
      | inr gone ↦ (AckStatus.already_acked, ground arith)
    ]
  ]

  abbrev after_one : ℕ → List DeliveryEntity → FederationDb → FederationDb
  after_one i loaded db = (acknowledge_one now a.id i (find_one (delivery_by_id i) loaded) db).1

  acknowledge_each-store :
      (i : ℕ) (ids : List ℕ) (loaded : List DeliveryEntity) (db : FederationDb)
      → (acknowledge_each now a.id loaded (i ∷ ids) db).1
        ≡ (acknowledge_each now a.id loaded ids (after_one i loaded db)).1
  unfolding acknowledge_each
  acknowledge_each-store i ids loaded db =
      let (x, e) = acknowledge_one_returns i (find_one (delivery_by_id i) loaded) db in
      elim (Result-cases (acknowledge_each now a.id loaded ids (after_one i loaded db)).0) [
        | inl (r, h) ↦ ground arith
        | inr (x', h) ↦ ground arith
      ]

  acknowledge_one-row :
      (i : ℕ) (seen row : DeliveryEntity) (db : FederationDb)
      → seen.id ≡ i
      → find_one (delivery_by_id i) db.deliveries ≡ some row
      → row.recipient_agent_id ≡ a.id
      → (is_acked seen.status ≡ true → is_acked row.status ≡ true)
      → IsAcked a i (acknowledge_one now a.id i (some seen) db).1
  unfolding acknowledge_one update_deliveries
  acknowledge_one-row i seen row db same found owned behind =
      let q = is_unacked_of a.id seen.id in
      let after =
        find_one-update_kept (delivery_by_id i) q (touched now (acked_row now)) (λ d. refl)
          db.deliveries in
      let here = find_one-holds (delivery_by_id i) db.deliveries row found in
      elim (Bool-cases (is_acked row.status)) [
        | inl done ↦ record { row = row; found = ground arith; acked = done }
        | inr wait ↦
            let there =
              find_one-exists_of (delivery_by_id i) q db.deliveries row found (ground arith) in
            record {
              row = touched now (acked_row now) row;
              found = ground (arith, behind);
              acked = refl;
            }
      ]

  -- Another acknowledgement of the agent leaves the row as far as it was, or further.
  after_one-IsLoaded :
      (i j : ℕ) (loaded : List DeliveryEntity) (db : FederationDb)
      → IsLoaded a i loaded db
      → IsLoaded a i loaded (after_one j loaded db)
  after_one-IsLoaded i j loaded db l =
      let keeps =
        acknowledge_one-Keeps (following Kind.acknowledgement) a (acked_row-Follows a.id) now j
          (find_one (delivery_by_id j) loaded) in
      let (row', found', f) = keeps.at db i l.row l.found in
      record {
        row = row';
        seen = l.seen;
        found = found';
        known = l.known;
        owned = f.same_recipient ∙ l.owned;
        behind =
            λ h. stays_acked Kind.acknowledgement l.row.status row'.status f.moved (l.behind h);
      }

  each_stays :
      (i : ℕ) (ids : List ℕ) (loaded : List DeliveryEntity) (db : FederationDb)
      → IsAcked a i db
      → IsAcked a i (acknowledge_each now a.id loaded ids db).1
  each_stays i ids loaded db k =
      let keeps =
        acknowledge_each-Keeps (following Kind.acknowledgement) a (acked_row-Follows a.id) now
          loaded ids in
      let (row', found', f) = keeps.at db i k.row k.found in
      record {
        row = row';
        found = found';
        acked = stays_acked Kind.acknowledgement k.row.status row'.status f.moved k.acked;
      }

  after_one-IsAcked :
      (i : ℕ) (loaded : List DeliveryEntity) (db : FederationDb)
      → IsLoaded a i loaded db
      → IsAcked a i (after_one i loaded db)
  after_one-IsAcked i loaded db l =
      let same = find_one-holds (delivery_by_id i) loaded l.seen l.known in
      subst (λ o. IsAcked a i (acknowledge_one now a.id i o db).1) (sym l.known)
        (acknowledge_one-row i l.seen l.row db (ground arith) l.found l.owned l.behind)

  pub acknowledge_each-IsAcked :
      (i : ℕ) (ids : List ℕ) (loaded : List DeliveryEntity) (db : FederationDb)
      → IsLoaded a i loaded db
      → exists (λ j. j == i) ids ≡ true
      → IsAcked a i (acknowledge_each now a.id loaded ids db).1
  unfolding exists
  acknowledge_each-IsAcked i [] loaded db l there = absurd (ground arith)
  acknowledge_each-IsAcked i (j ∷ ids) loaded db l there =
      let rest = λ (h : exists (λ j. j == i) ids ≡ true).
        acknowledge_each-IsAcked i ids loaded (after_one j loaded db)
          (after_one-IsLoaded i j loaded db l) h in
      subst (λ (s : FederationDb). IsAcked a i s) (sym (acknowledge_each-store j ids loaded db))
        (elim (Bool-cases (j == i)) [
          | inl same ↦ each_stays i ids loaded (after_one j loaded db) (
              subst (λ k. IsAcked a i (after_one k loaded db)) (ground arith)
                (after_one-IsAcked i loaded db l))
          | inr other ↦ rest (ground arith)
        ])
