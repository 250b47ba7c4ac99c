-- ===== src/Federation/Phases.antt =====
-- The abstract life of a delivery: it waits, is acknowledged, or is dead, and what happens says which
-- changes are possible.
use agentschat.Prelude.{
  ℕ, ◌≡◌, refl, ◌∙◌, inl, inr, Bool, true, false, List, some, arith, Bool-cases, if◌then◌else◌,
}
use agentschat.Prelude.Table.{find_one, update, insert_row}
use agentschat.Prelude.Rows.{find_one-update_kept, find_one-insert_row}
use agentschat.Federation.RowOrder.{RowOrder}
use agentschat.Federation.Store.{DeliveryStatus, DeliveryEntity, delivery_by_id, is_acked}

pub data Phase : Type 0 where
  waiting acknowledged dead unused : Phase

-- The status `failed` is never written.
abbrev pub phase : DeliveryStatus → Phase
phase DeliveryStatus.pending = Phase.waiting
phase DeliveryStatus.sent = Phase.waiting
phase DeliveryStatus.retrying = Phase.waiting
phase DeliveryStatus.acked = Phase.acknowledged
phase DeliveryStatus.dead_letter = Phase.dead
phase DeliveryStatus.failed = Phase.unused

-- What a step is to a delivery.
pub data Kind : Type 0 where
  bookkeeping acknowledgement attempt revival : Kind

abbrev pub same_phase : Phase → Phase → Bool
same_phase Phase.waiting Phase.waiting = true
same_phase Phase.acknowledged Phase.acknowledged = true
same_phase Phase.dead Phase.dead = true
same_phase Phase.unused Phase.unused = true
same_phase _ _ = false

-- Beside staying, an acknowledgement settles a delivery in any phase, an attempt may give up on one
-- that waits, and a revival makes a dead one wait.
abbrev pub may_move : Kind → Phase → Phase → Bool
may_move Kind.acknowledgement p Phase.acknowledged = true
may_move Kind.attempt Phase.waiting Phase.dead = true
may_move Kind.revival Phase.dead Phase.waiting = true
may_move k p q = same_phase p q

-- The delivery before and after: the same event for the same recipient in the same place of its
-- order, a change of phase that the kind allows, and once acknowledged, the time of that.
pub record Follows (k : Kind) (d d' : DeliveryEntity) : Type 0 where
  pub same_event : d'.event_id ≡ d.event_id
  pub same_recipient : d'.recipient_agent_id ≡ d.recipient_agent_id
  pub same_sequence : d'.sequence ≡ d.sequence
  pub moved : may_move k (phase d.status) (phase d'.status) ≡ true
  pub settled : (if is_acked d.status then d'.acked_at else d.acked_at) ≡ d.acked_at

pub may_move_refl : (k : Kind) (p : Phase) → may_move k p p ≡ true
may_move_refl k p = ground arith

may_move_trans :
    (k : Kind) (p q r : Phase)
    → may_move k p q ≡ true
    → may_move k q r ≡ true
    → may_move k p r ≡ true
may_move_trans k p q r h i = ground arith

pub stays_acked :
    (k : Kind) (s t : DeliveryStatus)
    → may_move k (phase s) (phase t) ≡ true
    → is_acked s ≡ true
    → is_acked t ≡ true
stays_acked k s t h a = ground arith

pub Follows-refl : (k : Kind) (d : DeliveryEntity) → Follows k d d
Follows-refl k d = record {
  same_event = refl;
  same_recipient = refl;
  same_sequence = refl;
  moved = may_move_refl k (phase d.status);
  settled = ground arith;
}

pub Follows-trans :
    (k : Kind) (c d e : DeliveryEntity) → Follows k c d → Follows k d e → Follows k c e
Follows-trans k c d e h i = record {
  same_event = i.same_event ∙ h.same_event;
  same_recipient = i.same_recipient ∙ h.same_recipient;
  same_sequence = i.same_sequence ∙ h.same_sequence;
  moved = may_move_trans k (phase c.status) (phase d.status) (phase e.status) h.moved i.moved;
  settled = elim (Bool-cases (is_acked c.status)) [
    | inl a ↦
        let b = stays_acked k c.status d.status h.moved a in ground (arith, h.settled, i.settled)
    | inr w ↦ ground arith
  ];
}

-- Every delivery that was there is there, and follows from what it was.
abbrev pub AllFollow : Kind → List DeliveryEntity → List DeliveryEntity → Type 0
AllFollow k xs ys =
    (i : ℕ) (d : DeliveryEntity)
    → find_one (delivery_by_id i) xs ≡ some d
    → (d' : DeliveryEntity) × (find_one (delivery_by_id i) ys ≡ some d') × Follows k d d'

pub update-AllFollow :
    (k : Kind) (p : DeliveryEntity → Bool) (f : DeliveryEntity → DeliveryEntity)
    → ((d : DeliveryEntity) → (f d).id ≡ d.id)
    → ((d : DeliveryEntity) → p d ≡ true → Follows k d (f d))
    → (xs : List DeliveryEntity) → AllFollow k xs (update p f xs)
update-AllFollow k p f keeps good xs i d e =
    let kept = find_one-update_kept (delivery_by_id i) p f (λ a. ground (arith, keeps a)) xs in
    elim (Bool-cases (p d)) [
      | inl fits ↦ (f d, ground arith, good d fits)
      | inr other ↦ (d, ground arith, Follows-refl k d)
    ]

pub insert_row-AllFollow :
    (k : Kind) (xs : List DeliveryEntity) (x : DeliveryEntity) → AllFollow k xs (insert_row xs x)
insert_row-AllFollow k xs x i d e =
    (d, ground (arith, find_one-insert_row (delivery_by_id i) xs x), Follows-refl k d)

abbrev pub following : Kind → RowOrder
following k = record {
  Rel = Follows k;
  Le = AllFollow k;
  le_refl = λ xs i d e. (d, e, Follows-refl k d);
  le_trans = λ a b c h g i d e.
      let (d', e', f) = h i d e in
      let (d'', e'', f') = g i d' e' in (d'', e'', Follows-trans k d d' d'' f f');
  updates = update-AllFollow k;
}

-- What is known of the time of an acknowledgement.
pub settled_time :
    (k : Kind) (d d' : DeliveryEntity)
    → Follows k d d'
    → is_acked d.status ≡ true
    → d'.acked_at ≡ d.acked_at
settled_time k d d' f h = ground (arith, f.settled)
