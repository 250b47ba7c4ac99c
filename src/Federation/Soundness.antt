-- ===== src/Federation/Soundness.antt =====
-- What every row of the deliveries satisfies, after any steps.
use agentschat.Prelude.{
  ℕ, ◌≡◌, ◌∙◌, inl, inr, Bool, true, not, ◌&&◌, List, [], ◌∷◌, some, arith, leb, ltb, is_some,
  if◌then◌else◌, Bool-cases,
}
use agentschat.Prelude.Table.{find_by, order_by}
use agentschat.Prelude.Every.{
  every, every-update, every-insert_row, every-find_by, every-order_by, every-find_one,
}
use agentschat.Federation.Store.{
  DeliveryEntity, AgentConnectionEntity, FederationDb, Environment, is_acked, is_dead_letter,
  max_webhook_attempts,
}
use agentschat.Federation.Poll.{is_outstanding}
use agentschat.Federation.Enqueue.{new_delivery, latest_sequence}
use agentschat.Federation.Webhooks.{begin_delivery, can_push, load_earliest_outstanding_delivery}
use agentschat.Federation.RowOrder.{RowOrder, AttemptRows}
use agentschat.Federation.AttemptsKeep.{
  poll-Keeps, push_outstanding-Keeps, finish_delivery-Keeps, expire-Keeps,
}
use agentschat.Federation.RequestsKeep.{
  archive-Keeps, bind-Keeps, sweep_presence-Keeps, enqueue-Keeps, acknowledge-Keeps, requeue-Keeps,
}
use agentschat.Federation.Steps.{Step, take_step, take_steps}

-- The status and the times say the same, what is settled is not attempted again, and pushes are
-- attempts, of which there are at most three.
abbrev pub is_sound : DeliveryEntity → Bool
is_sound d =
    (if is_acked d.status
      then is_some d.acked_at && not (is_some d.next_attempt_at) && not (is_some d.dead_lettered_at)
      else not (is_some d.acked_at))
    && (if is_dead_letter d.status
        then is_some d.dead_lettered_at && not (is_some d.next_attempt_at)
        else not (is_some d.dead_lettered_at))
    && leb d.webhook_attempt_count max_webhook_attempts
    && leb d.webhook_attempt_count d.attempt_count

abbrev pub soundness : RowOrder
soundness = record {
  Rel = λ d d'. is_sound d ≡ true → is_sound d' ≡ true;
  Le = λ xs ys. every is_sound xs ≡ true → every is_sound ys ≡ true;
  le_refl = λ xs h. h;
  le_trans = λ xs ys zs f g h. g (f h);
  updates = λ p f keeps h xs. every-update is_sound p f h xs;
}

-- What a push loads.
abbrev pub can_be_pushed : DeliveryEntity → Bool
can_be_pushed d =
    ltb d.webhook_attempt_count max_webhook_attempts && leb d.webhook_attempt_count d.attempt_count

attempt_rows : AttemptRows soundness (λ d. can_be_pushed d ≡ true)
attempt_rows = record {
  polled = λ now next seen d h s. ground arith;
  pushing = λ now next seen d l h s. ground arith;
  failed = λ e now seen x polling d h s. ground arith;
  pushed = λ e now seen polling d h s. ground arith;
  expired = λ now d h s. ground arith;
}

can_be_pushed_loaded :
    (db : FederationDb) (recipient : ℕ) (d : DeliveryEntity)
    → every is_sound db.deliveries ≡ true
    → load_earliest_outstanding_delivery recipient db ≡ some d
    → can_be_pushed d ≡ true
unfolding load_earliest_outstanding_delivery
can_be_pushed_loaded db recipient d s h =
    let q = λ (x : DeliveryEntity).
      is_outstanding recipient x && ltb x.webhook_attempt_count max_webhook_attempts in
    let both = λ (x : DeliveryEntity). is_sound x && q x in
    let batch = every-find_by is_sound q db.deliveries s in
    let here =
      every-find_one both (λ x. true) (order_by (λ x. x.sequence) (find_by q db.deliveries)) d
        (every-order_by both (λ x. x.sequence) (find_by q db.deliveries) ∙ batch) h in
    ground arith

begin_delivery_sound :
    (e : Environment) (now : ℕ) (c : AgentConnectionEntity) (may_wake : Bool) (db : FederationDb)
    → every is_sound db.deliveries ≡ true
    → every is_sound (begin_delivery e now c may_wake db).1.deliveries ≡ true
unfolding begin_delivery
begin_delivery_sound e now c may_wake db s =
    let push =
      push_outstanding-Keeps soundness attempt_rows e now may_wake
        (load_earliest_outstanding_delivery c.agent_id db)
        (λ d h. can_be_pushed_loaded db c.agent_id d s h) in
    elim (Bool-cases (not (can_push now c))) [
      | inl blocked ↦ ground (arith, s)
      | inr free ↦ ground (arith, push.at db s)
    ]

take_step_sound :
    (e : Environment) (now : ℕ) (s : Step) (db : FederationDb)
    → every is_sound db.deliveries ≡ true
    → every is_sound (take_step e now s db).deliveries ≡ true
unfolding take_step
take_step_sound e now (Step.enqueue event recipient window) db =
    (enqueue-Keeps soundness
        (λ now event recipient window c i xs new h. ground (
          arith,
          every-insert_row is_sound xs
              (new_delivery now event recipient window (latest_sequence recipient xs) c i),
        ))
        now event recipient window).at
      db
take_step_sound e now (Step.bind recipient c) db =
    (bind-Keeps soundness (λ now c d s. s) now recipient c).at db
take_step_sound e now (Step.acknowledge agent ids) db =
    (acknowledge-Keeps soundness agent (λ now i d h s. ground arith) now ids).at db
take_step_sound e now (Step.poll agent cursor limit wait times) db =
    (poll-Keeps _ attempt_rows e now agent cursor limit wait times).at db
take_step_sound e now (Step.begin_push c may_wake) db = begin_delivery_sound e now c may_wake db
take_step_sound e now (Step.finish_push c seen response) db =
    (finish_delivery-Keeps _ attempt_rows e now c seen response).at db
take_step_sound e now (Step.expire recipient) db = (expire-Keeps _ attempt_rows now recipient).at db
take_step_sound e now Step.archive db = (archive-Keeps soundness (λ now d s. s) now).at db
take_step_sound e now Step.sweep_presence db = (sweep_presence-Keeps soundness e now).at db
take_step_sound e now (Step.requeue i) db =
    (requeue-Keeps soundness (λ e now d h s. ground arith) e now i).at db

-- After any steps from sound rows, every row is sound: it is acknowledged exactly when it has the
-- time of that, dead exactly when it has the time of that, in neither case to be attempted again,
-- pushed at most three times, and never pushed without an attempt being counted.
pub take_steps_sound :
    (e : Environment) (steps : List (ℕ × Step)) (db : FederationDb)
    → every is_sound db.deliveries ≡ true
    → every is_sound (take_steps e steps db).deliveries ≡ true
unfolding take_steps
take_steps_sound e [] db h = h
take_steps_sound e ((now, s) ∷ rest) db h =
    take_steps_sound e rest (take_step e now s db) (take_step_sound e now s db h)
