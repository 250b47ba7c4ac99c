-- ===== src/Actions/Memory.antt =====
-- The action that a key names stays the same one.
use agentschat.Prelude.{
  ℕ, ◌≡◌, refl, sym, subst, ◌∙◌, inl, inr, Bool, false, List, [], ◌∷◌, some, arith, Bool-cases,
}
use agentschat.Prelude.Keeps.{Preorder, Keeps-if, Keeps-pure}
use agentschat.Prelude.Table.{exists, find_one, update, insert_row}
use agentschat.Prelude.Rows.{find_one-update_kept, find_one-insert_row}
use agentschat.Text.{Text}
use agentschat.Actions.Store.{FederationActionEntity, ActionsDb, Services, action_by_id, has_key}
use agentschat.Actions.Submit.{save_action}
use agentschat.Actions.Process.{
  claim_action, is_claimable, claimed_action, succeeded_action, released_action, failed_action,
  note_failure,
}
use agentschat.Actions.Steps.{ActionStep, take_step, take_steps}
use agentschat.Actions.Keep.{Writes, take_step-Le}

-- The action of a key before and after: the same one, for the same request.
pub record SameAction {J : Type 0} (a a' : FederationActionEntity J) : Type 0 where
  pub same_id : a'.id ≡ a.id
  pub same_hash : a'.request_hash ≡ a.request_hash

same_action :
    {J : Type 0} {a a' : FederationActionEntity J}
    → a'.id ≡ a.id
    → a'.request_hash ≡ a.request_hash
    → SameAction a a'
same_action p q = record { same_id = p; same_hash = q }

module _ {J : Type 0} (agent : ℕ) (key : Text) where
  abbrev pub KeepsAction :
      List (FederationActionEntity J) → List (FederationActionEntity J) → Type 0
  KeepsAction xs ys =
      (a : FederationActionEntity J)
      → find_one (has_key agent key) xs ≡ some a
      → (a' : FederationActionEntity J) × (find_one (has_key agent key) ys ≡ some a')
        × SameAction a a'

  KeepsAction-refl : (xs : List (FederationActionEntity J)) → KeepsAction xs xs
  KeepsAction-refl xs a h = (a, h, same_action refl refl)

  KeepsAction-trans :
      (xs ys zs : List (FederationActionEntity J))
      → KeepsAction xs ys
      → KeepsAction ys zs
      → KeepsAction xs zs
  KeepsAction-trans xs ys zs h i a e =
      let (b, f, s) = h a e in
      let (c, g, t) = i b f in
      (c, g, record { same_id = t.same_id ∙ s.same_id; same_hash = t.same_hash ∙ s.same_hash })

  KeepsAction-update :
      (p : FederationActionEntity J → Bool)
      (f : FederationActionEntity J → FederationActionEntity J)
      (xs : List (FederationActionEntity J))
      → ((a : FederationActionEntity J) → has_key agent key (f a) ≡ has_key agent key a)
      → ((a : FederationActionEntity J) → SameAction a (f a))
      → KeepsAction xs (update p f xs)
  KeepsAction-update p f xs h same a e =
      let after = find_one-update_kept (has_key agent key) p f h xs in
      elim (Bool-cases (p a)) [
        | inl fits ↦ (f a, ground arith, same a)
        | inr other ↦ (a, ground arith, same_action refl refl)
      ]

  KeepsAction-insert_row :
      (x : FederationActionEntity J) (xs : List (FederationActionEntity J))
      → KeepsAction xs (insert_row xs x)
  KeepsAction-insert_row x xs a e =
      (a, ground (arith, find_one-insert_row (has_key agent key) xs x), same_action refl refl)

module _ {J B : Type 0} (agent : ℕ) (key : Text) where
  abbrev remembering : Preorder (ActionsDb J B)
  remembering = record {
    Le = λ db db'. KeepsAction agent key db.actions db'.actions;
    le_refl = λ db. KeepsAction-refl agent key db.actions;
    le_trans = λ a b c. KeepsAction-trans agent key a.actions b.actions c.actions;
  }

  remembering-Writes : Writes remembering
  unfolding claim_action note_failure save_action
  remembering-Writes = record {
    quiet = λ m same next. record {
      at = λ db.
          subst (λ xs. KeepsAction agent key db.actions xs) (sym (same db))
            (KeepsAction-refl agent key db.actions);
    };
    saves = λ now ag type k hash payload.
        Keeps-if remembering (λ db. exists (has_key ag k) db.actions) _ _ (Keeps-pure remembering _)
          (record { at = λ db. KeepsAction-insert_row agent key _ db.actions });
    claims = λ now owner i.
        Keeps-if remembering (λ db. exists (is_claimable now i) db.actions) _ _
          (record {
            at = λ db.
                KeepsAction-update agent key (is_claimable now i) (claimed_action now owner)
                  db.actions (λ a. refl) (λ a. same_action refl refl);
          })
          (Keeps-pure remembering false);
    succeeds = λ now i r. record {
      at = λ db.
          KeepsAction-update agent key (action_by_id i) (succeeded_action now r) db.actions
            (λ a. refl) (λ a. same_action refl refl);
    };
    releases = λ i. record {
      at = λ db.
          KeepsAction-update agent key (action_by_id i) released_action db.actions (λ a. refl)
            (λ a. same_action refl refl);
    };
    fails = λ now owner i f. record {
      at = λ db.
          KeepsAction-update agent key _ (failed_action now f) db.actions (λ a. refl)
            (λ a. same_action refl refl);
    };
  }

  pub take_steps-KeepsAction :
      (sv : Services J B) (steps : List (ℕ × ActionStep J)) (db : ActionsDb J B)
      → KeepsAction agent key db.actions (take_steps sv steps db).actions
  unfolding take_steps
  take_steps-KeepsAction sv [] db = KeepsAction-refl agent key db.actions
  take_steps-KeepsAction sv ((now, s) ∷ rest) db =
      KeepsAction-trans agent key db.actions (take_step sv now s db).actions
        (take_steps sv rest (take_step sv now s db)).actions
        (take_step-Le remembering remembering-Writes sv now s db)
        (take_steps-KeepsAction sv rest (take_step sv now s db))
