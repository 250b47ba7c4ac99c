-- ===== src/Federation/Refinement.antt =====
-- The steps of the delivery service refine the abstract life of a delivery.
use agentschat.Prelude.{ℕ, ◌≡◌, refl, Bool, true, some, arith}
use agentschat.Prelude.Table.{find_one}
use agentschat.Federation.Store.{
  DeliveryEntity, DeliveryChannel, DeliveryError, AgentConnectionEntity, FederationDb, Environment,
  is_active, is_dead_letter, touched, delivery_by_id,
}
use agentschat.Federation.Attempts.{
  is_attempt_of, claimed_row, failed_row, expired_row, requeued_row,
}
use agentschat.Federation.Acknowledge.{acked_row, is_unacked_of}
use agentschat.Federation.Webhooks.{pushed_row}
use agentschat.Federation.RowOrder.{AttemptRows}
use agentschat.Federation.AttemptsKeep.{
  poll-Keeps, begin_delivery-Keeps, finish_delivery-Keeps, expire-Keeps,
}
use agentschat.Federation.RequestsKeep.{
  archived_row, bound_row, archive-Keeps, bind-Keeps, sweep_presence-Keeps, enqueue-Keeps,
  acknowledge-Keeps, requeue-Keeps,
}
use agentschat.Federation.Phases.{
  phase, Kind, may_move_refl, Follows, AllFollow, following, insert_row-AllFollow,
}
use agentschat.Federation.Steps.{Step, take_step}

claimed_row-Follows :
    (now : ℕ) (c : DeliveryChannel) (next : ℕ) (seen d : DeliveryEntity)
    → is_attempt_of seen d ≡ true
    → Follows Kind.attempt d (touched now (claimed_row now c next seen) d)
claimed_row-Follows now c next seen d h = record {
  same_event = refl;
  same_recipient = refl;
  same_sequence = refl;
  moved = ground arith;
  settled = ground arith;
}

failed_row-Follows :
    (e : Environment) (now : ℕ) (seen : DeliveryEntity) (x : DeliveryError) (polling : Bool)
    (d : DeliveryEntity)
    → is_attempt_of seen d ≡ true
    → Follows Kind.attempt d (touched now (failed_row e now seen x polling) d)
failed_row-Follows e now seen x polling d h = record {
  same_event = refl;
  same_recipient = refl;
  same_sequence = refl;
  moved = ground arith;
  settled = ground arith;
}

pushed_row-Follows :
    (e : Environment) (now : ℕ) (seen : DeliveryEntity) (polling : Bool) (d : DeliveryEntity)
    → is_attempt_of seen d ≡ true
    → Follows Kind.attempt d (touched now (pushed_row e now seen polling) d)
pushed_row-Follows e now seen polling d h = record {
  same_event = refl;
  same_recipient = refl;
  same_sequence = refl;
  moved = ground arith;
  settled = ground arith;
}

expired_row-Follows :
    (now : ℕ) (d : DeliveryEntity)
    → is_active d.status ≡ true
    → Follows Kind.attempt d (touched now (expired_row now) d)
expired_row-Follows now d h = record {
  same_event = refl;
  same_recipient = refl;
  same_sequence = refl;
  moved = ground arith;
  settled = ground arith;
}

pub acked_row-Follows :
    (recipient now i : ℕ) (d : DeliveryEntity)
    → is_unacked_of recipient i d ≡ true
    → Follows Kind.acknowledgement d (touched now (acked_row now) d)
acked_row-Follows recipient now i d h = record {
  same_event = refl;
  same_recipient = refl;
  same_sequence = refl;
  moved = ground arith;
  settled = ground arith;
}

requeued_row-Follows :
    (e : Environment) (now : ℕ) (d : DeliveryEntity)
    → is_dead_letter d.status ≡ true
    → Follows Kind.revival d (touched now (requeued_row e now) d)
requeued_row-Follows e now d h = record {
  same_event = refl;
  same_recipient = refl;
  same_sequence = refl;
  moved = ground arith;
  settled = ground arith;
}

bound_row-Follows :
    (k : Kind) (now : ℕ) (c : AgentConnectionEntity) (d : DeliveryEntity)
    → Follows k d (touched now (bound_row c) d)
bound_row-Follows k now c d = record {
  same_event = refl;
  same_recipient = refl;
  same_sequence = refl;
  moved = may_move_refl k (phase d.status);
  settled = ground arith;
}

archived_row-Follows : (k : Kind) (now : ℕ) (d : DeliveryEntity) → Follows k d (archived_row now d)
archived_row-Follows k now d = record {
  same_event = refl;
  same_recipient = refl;
  same_sequence = refl;
  moved = may_move_refl k (phase d.status);
  settled = ground arith;
}

attempt_rows : AttemptRows (following Kind.attempt) (λ d. Unit {0})
attempt_rows = record {
  polled = λ now next seen d. claimed_row-Follows now DeliveryChannel.polling next seen d;
  pushing = λ now next seen d l. claimed_row-Follows now DeliveryChannel.webhook next seen d;
  failed = failed_row-Follows;
  pushed = pushed_row-Follows;
  expired = expired_row-Follows;
}

-- What a step is to deliveries.
unfoldable pub kind_of : Step → Kind
kind_of (Step.enqueue event recipient window) = Kind.bookkeeping
kind_of (Step.bind recipient c) = Kind.bookkeeping
kind_of (Step.acknowledge agent ids) = Kind.acknowledgement
kind_of (Step.poll agent cursor limit wait times) = Kind.attempt
kind_of (Step.begin_push c may_wake) = Kind.attempt
kind_of (Step.finish_push c seen response) = Kind.attempt
kind_of (Step.expire recipient) = Kind.attempt
kind_of Step.archive = Kind.bookkeeping
kind_of Step.sweep_presence = Kind.bookkeeping
kind_of (Step.requeue i) = Kind.revival

pub take_step-AllFollow :
    (e : Environment) (now : ℕ) (s : Step) (db : FederationDb)
    → AllFollow (kind_of s) db.deliveries (take_step e now s db).deliveries
unfolding take_step kind_of
take_step-AllFollow e now (Step.enqueue event recipient window) db =
    (enqueue-Keeps (following Kind.bookkeeping)
        (λ now event recipient window c i xs new. insert_row-AllFollow _ xs _) now event recipient
        window).at
      db
take_step-AllFollow e now (Step.bind recipient c) db =
    (bind-Keeps (following Kind.bookkeeping) (bound_row-Follows _) now recipient c).at db
take_step-AllFollow e now (Step.acknowledge agent ids) db =
    (acknowledge-Keeps (following Kind.acknowledgement) agent (acked_row-Follows agent.id) now
        ids).at
      db
take_step-AllFollow e now (Step.poll agent cursor limit wait times) db =
    (poll-Keeps _ attempt_rows e now agent cursor limit wait times).at db
take_step-AllFollow e now (Step.begin_push c may_wake) db =
    (begin_delivery-Keeps _ attempt_rows (λ d. tt) e now c may_wake).at db
take_step-AllFollow e now (Step.finish_push c seen response) db =
    (finish_delivery-Keeps _ attempt_rows e now c seen response).at db
take_step-AllFollow e now (Step.expire recipient) db =
    (expire-Keeps _ attempt_rows now recipient).at db
take_step-AllFollow e now Step.archive db =
    (archive-Keeps (following Kind.bookkeeping) (archived_row-Follows _) now).at db
take_step-AllFollow e now Step.sweep_presence db =
    (sweep_presence-Keeps (following Kind.bookkeeping) e now).at db
take_step-AllFollow e now (Step.requeue i) db =
    (requeue-Keeps (following Kind.revival) requeued_row-Follows e now i).at db

-- A step moves every delivery as the step's kind allows: the delivery is still there, for the same
-- event and recipient at the same place in the recipient's order; an attempt, a poll or the end of
-- the window only makes a waiting one dead, an acknowledgement only settles, a requeue only makes a
-- dead one wait, and what else happens moves none; an acknowledged one keeps its phase and the time
-- of its acknowledgement.
pub take_step-Follows :
    (e : Environment) (now : ℕ) (s : Step) (db : FederationDb) (i : ℕ) (d : DeliveryEntity)
    → find_one (delivery_by_id i) db.deliveries ≡ some d
    → (d' : DeliveryEntity) × (find_one (delivery_by_id i) (take_step e now s db).deliveries
        ≡ some d')
      × Follows (kind_of s) d d'
take_step-Follows e now s db i d found = take_step-AllFollow e now s db i d found
