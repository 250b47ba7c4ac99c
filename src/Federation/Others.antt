-- ===== src/Federation/Others.antt =====
-- An agent's acknowledgement leaves the deliveries of others alone.
use agentschat.Prelude.{
  ℕ, ◌≡◌, refl, ◌∙◌, inl, inr, Bool, true, not, List, [], ◌∷◌, arith, ◌==◌, Bool-cases,
}
use agentschat.Prelude.Table.{find_by, update}
use agentschat.Federation.Store.{DeliveryEntity, FederationDb, FederatedAgent}
use agentschat.Federation.Acknowledge.{is_unacked_of, acked_row, acknowledge_deliveries}
use agentschat.Federation.RowOrder.{RowOrder}
use agentschat.Federation.RequestsKeep.{acknowledge-Keeps}

abbrev pub is_of_other : FederatedAgent → DeliveryEntity → Bool
is_of_other a d = not (d.recipient_agent_id == a.id)

record Spares (a : FederatedAgent) (d d' : DeliveryEntity) : Type 0 where
  same_recipient : d'.recipient_agent_id ≡ d.recipient_agent_id
  unchanged : is_of_other a d ≡ true → d' ≡ d

module _ (a : FederatedAgent) where
  find_by-update :
      (p : DeliveryEntity → Bool) (f : DeliveryEntity → DeliveryEntity)
      → ((d : DeliveryEntity) → p d ≡ true → Spares a d (f d))
      → (xs : List DeliveryEntity)
      → find_by (is_of_other a) (update p f xs) ≡ find_by (is_of_other a) xs
  unfolding find_by update
  find_by-update p f h [] = refl
  find_by-update p f h (x ∷ xs) = elim (Bool-cases (p x)) [
    | inl fits ↦
        let k = h x fits in
        elim (Bool-cases (is_of_other a x)) [
          | inl other ↦ ground (arith, find_by-update p f h xs, k.unchanged other)
          | inr own ↦ ground (arith, find_by-update p f h xs, k.same_recipient)
        ]
    | inr not_it ↦ ground (arith, find_by-update p f h xs)
  ]

  abbrev sparing : RowOrder
  sparing = record {
    Rel = Spares a;
    Le = λ xs ys. find_by (is_of_other a) ys ≡ find_by (is_of_other a) xs;
    le_refl = λ xs. refl;
    le_trans = λ xs ys zs f g. g ∙ f;
    updates = λ p f keeps h xs. find_by-update p f h xs;
  }

  acked_row-Spares :
      (now i : ℕ) (d : DeliveryEntity)
      → is_unacked_of a.id i d ≡ true
      → Spares a d (record (acked_row now d) { updated_at = now })
  acked_row-Spares now i d h = record {
    same_recipient = refl;
    unchanged = λ o. absurd (ground arith);
  }

-- Whatever ids an agent names, and whether it is refused or not, the deliveries of other recipients
-- are the same rows in the same order as before.
acknowledge_deliveries-others :
    (now : ℕ) (a : FederatedAgent) (ids : List ℕ) (db : FederationDb)
    → find_by (is_of_other a) (acknowledge_deliveries now a ids db).1.deliveries
      ≡ find_by (is_of_other a) db.deliveries
acknowledge_deliveries-others now a ids db =
    (acknowledge-Keeps (sparing a) a (acked_row-Spares a) now ids).at db
