-- ===== src/Actions/Spending.antt =====
-- An action that has ended stays so, and nobody can hold it again.
use agentschat.Prelude.{
  ℕ, ◌≡◌, ◌≤◌, ◌<◌, refl, ap, ◌∙◌, Bool, true, false, not, ◌&&◌, ◌||◌, List, [], ◌∷◌, arith, ◌==◌,
  is_some,
}
use agentschat.Prelude.Keeps.{Preorder, Keeps, Keeps-if, Keeps-pure}
use agentschat.Prelude.Table.{exists, update}
use agentschat.Prelude.Every.{every, every-update, every-insert_row}
use agentschat.Text.{Text}
use agentschat.Actions.Store.{
  FederationActionEntity, ActionsDb, ActionResult, Failure, action_by_id, is_owned_by, has_key,
}
use agentschat.Actions.Submit.{new_action, save_action}
use agentschat.Actions.Process.{
  is_settled, claim_action, is_claimable, claimed_action, succeeded_action, released_action,
  failed_action, is_processing, note_failure, change_actions,
}
use agentschat.Actions.Keep.{Writes}

module _ {J : Type 0} (i : ℕ) where
  -- If it is action `i`, it is settled, and nobody holds a lease on it.
  abbrev pub is_spent : FederationActionEntity J → Bool
  is_spent a = not (a.id == i) || is_settled a.status && not (is_some a.lease_owner)

module _ {J : Type 0} (i : ℕ) where
  -- A row that is spent is nobody's.
  pub not_owned :
      (owner : ℕ) (xs : List (FederationActionEntity J))
      → every (is_spent i) xs ≡ true
      → exists (is_owned_by owner i) xs ≡ false
  unfolding every exists
  not_owned owner [] h = refl
  not_owned owner (a ∷ rest) h = ground (arith, not_owned owner rest)

  -- What a success writes.
  pub settles_all :
      (now : ℕ) (r : ActionResult J) (xs : List (FederationActionEntity J))
      → every (is_spent i) (
          update
            (action_by_id i)
            released_action
            (update (action_by_id i) (succeeded_action now r) xs))
        ≡ true
  unfolding every update
  settles_all now r [] = refl
  settles_all now r (a ∷ rest) = ground (arith, settles_all now r rest)

module _ {J B : Type 0} (i : ℕ) where
  pub record Spends (db db' : ActionsDb J B) : Type 0 where
    pub grows : db.next_id ≤ db'.next_id
    pub stays :
        i < db.next_id
        → every (is_spent i) db.actions ≡ true
        → every (is_spent i) db'.actions ≡ true

  pub Spends-refl : (db : ActionsDb J B) → Spends db db
  Spends-refl db = record { grows = ground arith; stays = λ l h. h }

  pub Spends-trans : (a b c : ActionsDb J B) → Spends a b → Spends b c → Spends a c
  Spends-trans a b c g h = record {
    grows = let k = g.grows in let l = h.grows in ground arith;
    stays = λ l s. h.stays (let k = g.grows in ground arith) (g.stays l s);
  }

  abbrev pub spending : Preorder (ActionsDb J B)
  spending = record { Le = Spends; le_refl = Spends-refl; le_trans = Spends-trans }

  change-Spends :
      (p : FederationActionEntity J → Bool)
      (f : FederationActionEntity J → FederationActionEntity J) (db : ActionsDb J B)
      → ((a : FederationActionEntity J)
          → p a ≡ true
          → is_spent i a ≡ true
          → is_spent i (f a) ≡ true)
      → Spends db (change_actions p f db)
  change-Spends p f db h = record {
    grows = ground arith;
    stays = λ l s. every-update (is_spent i) p f h db.actions s;
  }

  claim-Spends : (now owner j : ℕ) → Keeps spending (claim_action now owner j)
  unfolding claim_action
  claim-Spends now owner j =
      Keeps-if spending (λ db. exists (is_claimable now j) db.actions) _ _
        (record {
          at = λ db.
              change-Spends (is_claimable now j) (claimed_action now owner) db
                (λ a p s. ground arith);
        })
        (Keeps-pure spending false)

  save-Spends :
      (now agent : ℕ) (type key : Text) (hash : ℕ) (payload : J)
      → Keeps spending (save_action (new_action now agent type key hash payload) agent key)
  unfolding save_action
  save-Spends now agent type key hash payload =
      Keeps-if spending (λ db. exists (has_key agent key) db.actions) _ _ (Keeps-pure spending _)
        (record {
          at = λ db. record {
            grows = ground arith;
            stays = λ l s. ground (
              arith,
              every-insert_row (is_spent i) db.actions
                  (new_action now agent type key hash payload db.next_id),
            );
          };
        })

  fail-Spends : (now owner j : ℕ) (f : Failure) → Keeps spending (note_failure now owner j f)
  unfolding note_failure
  fail-Spends now owner j f = record {
    at = λ db.
        change-Spends (λ a. is_owned_by owner j a && is_processing a.status) (failed_action now f)
          db (λ a p s. ground arith);
  }

  pub writes : Writes spending
  writes = record {
    quiet = λ m same next. record {
      at = λ db. record {
        grows = ground (arith, next db);
        stays = λ l s. ap (every (is_spent i)) (same db) ∙ s;
      };
    };
    saves = save-Spends;
    claims = claim-Spends;
    succeeds = λ now j r. record {
      at = λ db. change-Spends (action_by_id j) (succeeded_action now r) db (λ a p s. ground arith);
    };
    releases = λ j. record {
      at = λ db. change-Spends (action_by_id j) released_action db (λ a p s. ground arith);
    };
    fails = fail-Spends;
  }
