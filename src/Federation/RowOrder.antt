-- ===== src/Federation/RowOrder.antt =====
-- An order on the table of deliveries that comes from a relation between a row before and after; the
-- operations on deliveries are shown to keep such an order from what they write into rows.
use agentschat.Prelude.{ℕ, ◌≡◌, sym, subst, Bool, true, List}
use agentschat.Prelude.Table.{update}
use agentschat.Prelude.Keeps.{Preorder, Keeps}
use agentschat.Prelude.Action.{Result}
use agentschat.Federation.Store.{
  DeliveryChannel, DeliveryError, DeliveryEntity, FederationDb, Refusal, M, Environment, is_active,
  touched, update_deliveries,
}
use agentschat.Federation.Attempts.{is_attempt_of, claimed_row, failed_row, expired_row}
use agentschat.Federation.Webhooks.{pushed_row}

pub record RowOrder : Type 1 where
  pub Rel : DeliveryEntity → DeliveryEntity → Type 0
  pub Le : List DeliveryEntity → List DeliveryEntity → Type 0
  pub le_refl : (xs : List DeliveryEntity) → Le xs xs
  pub le_trans : (xs ys zs : List DeliveryEntity) → Le xs ys → Le ys zs → Le xs zs
  pub updates :
      (p : DeliveryEntity → Bool) (f : DeliveryEntity → DeliveryEntity)
      → ((d : DeliveryEntity) → (f d).id ≡ d.id)
      → ((d : DeliveryEntity) → p d ≡ true → Rel d (f d))
      → (xs : List DeliveryEntity) → Le xs (update p f xs)

-- What an attempt writes is related to what was there. `Loaded` is what is known of the copy that a
-- push claims.
pub record AttemptRows (R : RowOrder) (Loaded : DeliveryEntity → Type 0) : Type 0 where
  pub polled :
      (now next : ℕ) (seen d : DeliveryEntity)
      → is_attempt_of seen d ≡ true
      → R.Rel d (touched now (claimed_row now DeliveryChannel.polling next seen) d)
  pub pushing :
      (now next : ℕ) (seen d : DeliveryEntity)
      → Loaded seen
      → is_attempt_of seen d ≡ true
      → R.Rel d (touched now (claimed_row now DeliveryChannel.webhook next seen) d)
  pub failed :
      (e : Environment) (now : ℕ) (seen : DeliveryEntity) (x : DeliveryError) (polling : Bool)
      (d : DeliveryEntity)
      → is_attempt_of seen d ≡ true
      → R.Rel d (touched now (failed_row e now seen x polling) d)
  pub pushed :
      (e : Environment) (now : ℕ) (seen : DeliveryEntity) (polling : Bool) (d : DeliveryEntity)
      → is_attempt_of seen d ≡ true
      → R.Rel d (touched now (pushed_row e now seen polling) d)
  pub expired :
      (now : ℕ) (d : DeliveryEntity)
      → is_active d.status ≡ true
      → R.Rel d (touched now (expired_row now) d)

module _ (R : RowOrder) where
  abbrev pub on_store : Preorder FederationDb
  on_store = record {
    Le = λ db db'. R.Le db.deliveries db'.deliveries;
    le_refl = λ db. R.le_refl db.deliveries;
    le_trans = λ a b c. R.le_trans a.deliveries b.deliveries c.deliveries;
  }

  module _ {A : Type 0} where
    pub same_deliveries :
        (m : M A) → ((db : FederationDb) → (m db).1.deliveries ≡ db.deliveries) → Keeps on_store m
    same_deliveries m h = record {
      at = λ db. subst (λ ds. R.Le db.deliveries ds) (sym (h db)) (R.le_refl db.deliveries);
    }

    pub update_deliveries-Keeps :
        (r : Result Refusal A) (now : ℕ) (p : DeliveryEntity → Bool)
        (f : DeliveryEntity → DeliveryEntity)
        → ((d : DeliveryEntity) → (f d).id ≡ d.id)
        → ((d : DeliveryEntity) → p d ≡ true → R.Rel d (touched now f d))
        → Keeps {A = A} on_store (λ db. (r, update_deliveries now p f db))
    unfolding update_deliveries
    update_deliveries-Keeps r now p f keeps h = record {
      at = λ db. R.updates p (touched now f) keeps h db.deliveries;
    }
