-- ===== src/Actions/Settling.antt =====
-- A run that nothing interrupts settles its action.
use agentschat.Prelude.{
  ℕ, ◌≡◌, refl, sym, subst, inl, inr, Bool, true, ◌&&◌, List, none, some, arith,
}
use agentschat.Prelude.Table.{find_one}
use agentschat.Prelude.Rows.{find_one-update_kept, find_one-exists_of, find_one-holds}
use agentschat.Prelude.Action.{ok, in_transaction, continue, Result-cases}
use agentschat.Actions.Store.{
  FederationActionEntity, ActionsDb, Failure, Services, action_by_id, is_owned_by,
}
use agentschat.Actions.Process.{
  error_of, is_settled, claim_action, execute_action, is_due, is_claimable, claimed_action,
  succeeded_action, released_action, failed_action, is_processing, perform_held, perform_action,
  note_failure, change_actions, process_accepted_action, process_claimed,
}

-- Action `i` has ended, and nobody holds a lease on it.
pub record IsSettled {J : Type 0} (i : ℕ) (xs : List (FederationActionEntity J)) : Type 0 where
  pub row : FederationActionEntity J
  pub found : find_one (action_by_id i) xs ≡ some row
  pub ended : is_settled row.status ≡ true
  pub free : row.lease_owner ≡ none

error_of_ends : (f : Failure) → is_settled (error_of f).0 ≡ true
error_of_ends (Failure.federation_http code) = refl
error_of_ends (Failure.action_rejection code) = refl
error_of_ends (Failure.http code) = refl
error_of_ends Failure.crash = refl

module _ {J B : Type 0} (sv : Services J B) (now owner i : ℕ) where
  find_one-change :
      (p : FederationActionEntity J → Bool)
      (f : FederationActionEntity J → FederationActionEntity J) (db : ActionsDb J B)
      (a : FederationActionEntity J)
      → ((x : FederationActionEntity J) → (f x).id ≡ x.id)
      → find_one (action_by_id i) db.actions ≡ some a
      → p a ≡ true
      → find_one (action_by_id i) (change_actions p f db).actions ≡ some (f a)
  find_one-change p f db a keeps found fits =
      ground
        (arith, find_one-update_kept (action_by_id i) p f (λ x. ground (arith, keeps x)) db.actions)

  -- The work of an action that the process holds, and the note of its failure.
  perform_action-IsSettled :
      (db : ActionsDb J B) (a : FederationActionEntity J)
      → find_one (action_by_id i) db.actions ≡ some a
      → is_owned_by owner i a ≡ true
      → is_processing a.status ≡ true
      → IsSettled i (process_claimed sv now owner i true db).1.actions
  unfolding perform_action perform_held in_transaction note_failure
  perform_action-IsSettled db a found owned running =
      let held =
        find_one-exists_of (action_by_id i) (is_owned_by owner i) db.actions a found owned in
      let here = find_one-holds (action_by_id i) db.actions a found in
      elim (Result-cases (execute_action sv a db.business).0) [
        | inl (r, done) ↦
            let first =
              find_one-change (action_by_id i) (succeeded_action now r) db a (λ x. refl) found
                here in
            let second =
              find_one-change (action_by_id i) released_action
                (change_actions (action_by_id i) (succeeded_action now r) db)
                (succeeded_action now r a) (λ x. refl) first here in
            record {
              row = released_action (succeeded_action now r a);
              found = ground (arith, held, second);
              ended = refl;
              free = refl;
            }
        | inr (f, thrown) ↦
            let noted =
              find_one-change (λ x. is_owned_by owner i x && is_processing x.status)
                (failed_action now f) db a (λ x. refl) found (ground arith) in
            record {
              row = failed_action now f a;
              found = ground (arith, held, noted);
              ended = error_of_ends f;
              free = refl;
            }
      ]

  -- An action that is due, accepted or left behind with a lease that is over, has ended after a run of
  -- processAcceptedAction that nothing interrupts, whatever its handler does, and holds no lease.
  pub process_accepted_action-IsSettled :
      (db : ActionsDb J B) (a : FederationActionEntity J)
      → find_one (action_by_id i) db.actions ≡ some a
      → is_due now a ≡ true
      → IsSettled i (process_accepted_action sv now owner i db).1.actions
  unfolding process_accepted_action claim_action
  process_accepted_action-IsSettled db a found due =
      let here = find_one-holds (action_by_id i) db.actions a found in
      let there =
        find_one-exists_of (action_by_id i) (is_claimable now i) db.actions a found
          (ground arith) in
      let db1 = change_actions (is_claimable now i) (claimed_action now owner) db in
      let found1 =
        find_one-change (is_claimable now i) (claimed_action now owner) db a (λ x. refl) found
          (ground arith) in
      let claimed : claim_action now owner i db ≡ (ok true, db1) = ground (arith, there) in
      let k =
        perform_action-IsSettled db1 (claimed_action now owner a) found1 (ground arith) refl in
      subst (λ r. IsSettled i (continue r (process_claimed sv now owner i)).1.actions) (sym claimed)
        k
