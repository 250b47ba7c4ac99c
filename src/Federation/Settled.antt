-- ===== src/Federation/Settled.antt =====
-- An acknowledgement is final, whatever comes after it.
use agentschat.Prelude.{ℕ, ◌≡◌, refl, ◌∙◌, true, List, [], ◌∷◌, some}
use agentschat.Prelude.Table.{find_one}
use agentschat.Federation.Store.{
  DeliveryEntity, FederationDb, Environment, delivery_by_id, is_acked,
}
use agentschat.Federation.Phases.{stays_acked, settled_time}
use agentschat.Federation.Refinement.{kind_of, take_step-AllFollow}
use agentschat.Federation.Steps.{Step, take_step, take_steps}

-- A delivery that is acknowledged is still acknowledged, with the same time, after any steps: late
-- answers to pushes, the end of its window, further acknowledgements and requeues among them.
pub take_steps-acknowledged :
    (e : Environment) (steps : List (ℕ × Step)) (db : FederationDb) (i : ℕ) (d : DeliveryEntity)
    → find_one (delivery_by_id i) db.deliveries ≡ some d
    → is_acked d.status ≡ true
    → (d' : DeliveryEntity) × (find_one (delivery_by_id i) (take_steps e steps db).deliveries
        ≡ some d')
      × (is_acked d'.status ≡ true)
      × (d'.acked_at ≡ d.acked_at)
unfolding take_steps
take_steps-acknowledged e [] db i d found acked = (d, found, acked, refl)
take_steps-acknowledged e ((now, s) ∷ rest) db i d found acked =
    let (d', found', f) = take_step-AllFollow e now s db i d found in
    let acked' = stays_acked (kind_of s) d.status d'.status f.moved acked in
    let (d'', found'', acked'', same) =
      take_steps-acknowledged e rest (take_step e now s db) i d' found' acked' in
    (d'', found'', acked'', same ∙ settled_time (kind_of s) d d' f acked)
