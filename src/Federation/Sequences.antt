-- ===== src/Federation/Sequences.antt =====
-- The recipient's order of deliveries, and one delivery for each event and recipient.
use agentschat.Prelude.{
  ℕ, ◌≡◌, ◌≤◌, refl, ◌∙◌, Bool, true, false, ◌&&◌, ◌||◌, List, [], ◌∷◌, Option, arith, leb, ltb,
  ◌==◌,
}
use agentschat.Prelude.Table.{exists, update, insert_row}
use agentschat.Prelude.Distinct.{distinct, distinct-update, distinct-insert_row}
use agentschat.Federation.Store.{DeliveryEntity, AgentConnectionEntity, FederationDb, Environment}
use agentschat.Federation.Enqueue.{new_delivery, latest_sequence, same_delivery}
use agentschat.Federation.RowOrder.{RowOrder, AttemptRows}
use agentschat.Federation.AttemptsKeep.{
  poll-Keeps, begin_delivery-Keeps, finish_delivery-Keeps, expire-Keeps,
}
use agentschat.Federation.RequestsKeep.{
  archive-Keeps, bind-Keeps, sweep_presence-Keeps, enqueue-Keeps, acknowledge-Keeps, requeue-Keeps,
}
use agentschat.Federation.Steps.{Step, take_step, take_steps}

abbrev pub clashes : DeliveryEntity → DeliveryEntity → Bool
clashes d d' =
    d.recipient_agent_id == d'.recipient_agent_id
    && (d.sequence == d'.sequence || d.event_id == d'.event_id)

-- No two rows of a recipient have a sequence or an event in common.
abbrev pub is_orderly : List DeliveryEntity → Bool
is_orderly = distinct clashes

record SameKey (d d' : DeliveryEntity) : Type 0 where
  same_recipient : d'.recipient_agent_id ≡ d.recipient_agent_id
  same_sequence : d'.sequence ≡ d.sequence
  same_event : d'.event_id ≡ d.event_id

same_key :
    {d d' : DeliveryEntity}
    → d'.recipient_agent_id ≡ d.recipient_agent_id
    → d'.sequence ≡ d.sequence
    → d'.event_id ≡ d.event_id
    → SameKey d d'
same_key h i j = record { same_recipient = h; same_sequence = i; same_event = j }

is_orderly-update :
    (p : DeliveryEntity → Bool) (f : DeliveryEntity → DeliveryEntity)
    → ((d : DeliveryEntity) → p d ≡ true → SameKey d (f d))
    → (xs : List DeliveryEntity) → is_orderly xs ≡ true
    → is_orderly (update p f xs) ≡ true
is_orderly-update p f h xs o =
    distinct-update clashes p f
      (λ x y fits.
        let k = h x fits in ground (arith, k.same_recipient, k.same_sequence, k.same_event))
      (λ x y fits.
        let k = h y fits in ground (arith, k.same_recipient, k.same_sequence, k.same_event))
      xs
    ∙ o

abbrev sequences : RowOrder
sequences = record {
  Rel = SameKey;
  Le = λ xs ys. is_orderly xs ≡ true → is_orderly ys ≡ true;
  le_refl = λ xs h. h;
  le_trans = λ xs ys zs f g h. g (f h);
  updates = λ p f keeps h xs. is_orderly-update p f h xs;
}

attempt_rows : AttemptRows sequences (λ d. Unit {0})
attempt_rows = record {
  polled = λ now next seen d h. same_key refl refl refl;
  pushing = λ now next seen d l h. same_key refl refl refl;
  failed = λ e now seen x polling d h. same_key refl refl refl;
  pushed = λ e now seen polling d h. same_key refl refl refl;
  expired = λ now d h. same_key refl refl refl;
}

-- Beyond the latest sequence there is none.
latest_sequence_bound :
    (recipient n : ℕ) (xs : List DeliveryEntity)
    → latest_sequence recipient xs ≤ n
    → exists (λ d. d.recipient_agent_id == recipient && ltb n d.sequence) xs ≡ false
unfolding latest_sequence exists
latest_sequence_bound recipient n [] h = refl
latest_sequence_bound recipient n (x ∷ xs) h = ground (arith, latest_sequence_bound recipient n xs)

-- A new row with the next sequence, for an event that the recipient has no delivery of, clashes
-- with none.
no_clash :
    (x : DeliveryEntity) (xs : List DeliveryEntity)
    → exists (same_delivery x.event_id x.recipient_agent_id) xs ≡ false
    → exists (λ d. d.recipient_agent_id == x.recipient_agent_id && leb x.sequence d.sequence) xs
      ≡ false
    → exists (λ d. clashes d x) xs ≡ false
unfolding exists
no_clash x [] new last = refl
no_clash x (y ∷ ys) new last = ground (arith, no_clash x ys)

is_orderly-insert_row :
    (x : DeliveryEntity) (xs : List DeliveryEntity)
    → is_orderly xs ≡ true
    → exists (same_delivery x.event_id x.recipient_agent_id) xs ≡ false
    → exists (λ d. d.recipient_agent_id == x.recipient_agent_id && leb x.sequence d.sequence) xs
      ≡ false
    → is_orderly (insert_row xs x) ≡ true
is_orderly-insert_row x xs o new last =
    ground (arith, distinct-insert_row clashes xs x, no_clash x xs new last)

is_orderly-new_delivery :
    (now event recipient window : ℕ) (c : Option AgentConnectionEntity) (i : ℕ)
    (xs : List DeliveryEntity)
    → exists (same_delivery event recipient) xs ≡ false
    → is_orderly xs ≡ true
    → is_orderly
        (insert_row xs (new_delivery now event recipient window (latest_sequence recipient xs) c i))
      ≡ true
is_orderly-new_delivery now event recipient window c i xs new o =
    is_orderly-insert_row
      (new_delivery now event recipient window (latest_sequence recipient xs) c i) xs o new
      (ground (arith, latest_sequence_bound recipient (latest_sequence recipient xs) xs))

take_step-is_orderly :
    (e : Environment) (now : ℕ) (s : Step) (db : FederationDb)
    → is_orderly db.deliveries ≡ true
    → is_orderly (take_step e now s db).deliveries ≡ true
unfolding take_step
take_step-is_orderly e now (Step.enqueue event recipient window) db =
    (enqueue-Keeps sequences is_orderly-new_delivery now event recipient window).at db
take_step-is_orderly e now (Step.bind recipient c) db =
    (bind-Keeps sequences (λ now c d. same_key refl refl refl) now recipient c).at db
take_step-is_orderly e now (Step.acknowledge agent ids) db =
    (acknowledge-Keeps sequences agent (λ now i d h. same_key refl refl refl) now ids).at db
take_step-is_orderly e now (Step.poll agent cursor limit wait times) db =
    (poll-Keeps _ attempt_rows e now agent cursor limit wait times).at db
take_step-is_orderly e now (Step.begin_push c may_wake) db =
    (begin_delivery-Keeps _ attempt_rows (λ d. tt) e now c may_wake).at db
take_step-is_orderly e now (Step.finish_push c seen response) db =
    (finish_delivery-Keeps _ attempt_rows e now c seen response).at db
take_step-is_orderly e now (Step.expire recipient) db =
    (expire-Keeps _ attempt_rows now recipient).at db
take_step-is_orderly e now Step.archive db =
    (archive-Keeps sequences (λ now d. same_key refl refl refl) now).at db
take_step-is_orderly e now Step.sweep_presence db = (sweep_presence-Keeps sequences e now).at db
take_step-is_orderly e now (Step.requeue i) db =
    (requeue-Keeps sequences (λ e now d h. same_key refl refl refl) e now i).at db

-- After any steps from an orderly table, the deliveries of a recipient still have different
-- sequences, and there is at most one for each event.
pub take_steps-is_orderly :
    (e : Environment) (steps : List (ℕ × Step)) (db : FederationDb)
    → is_orderly db.deliveries ≡ true
    → is_orderly (take_steps e steps db).deliveries ≡ true
unfolding take_steps
take_steps-is_orderly e [] db h = h
take_steps-is_orderly e ((now, s) ∷ rest) db h =
    take_steps-is_orderly e rest (take_step e now s db) (take_step-is_orderly e now s db h)
