-- ===== src/Actions/Resubmission.antt =====
-- A request that is sent again finds the action that it made.
use agentschat.Prelude.{
  ℕ, ◌≡◌, refl, ap, sym, ◌∙◌, ◌⊎◌, inl, inr, Bool, false, List, Option, none, some, arith, ◌==◌,
  Bool-cases, Option-cases,
}
use agentschat.Prelude.Table.{find_one}
use agentschat.Prelude.Rows.{find_one-insert_row, find_one-exists}
use agentschat.Prelude.Action.{ok, err}
use agentschat.Text.{Text, same_text_refl, non_empty}
use agentschat.Federation.Store.{FederatedAgent}
use agentschat.Actions.Store.{FederationActionEntity, ActionsDb, Failure, Services, has_key}
use agentschat.Actions.Submit.{
  PayloadInput, Submitted, new_action, save_action, submit_action, finish_submission, same_request,
  recover_concurrent, required_header, normalize_payload, mark_agent_connection_active,
}
use agentschat.Actions.Steps.{ActionStep, take_steps}
use agentschat.Actions.Memory.{take_steps-KeepsAction}

module _ {J B : Type 0} (agent : ℕ) (key : Text) where
  -- What an accepted submission leaves.
  finish_submission-found :
      (now : ℕ) (type : Text) (hash : ℕ) (payload : J) (o : Option (FederationActionEntity J))
      (db : ActionsDb J B) (created : Bool) (a : FederationActionEntity J)
      → find_one (has_key agent key) db.actions ≡ o
      → (finish_submission now agent type key hash payload o db).0 ≡ ok (created, a)
      → (find_one
            (has_key agent key)
            (finish_submission now agent type key hash payload o db).1.actions
          ≡ some a)
        × (a.request_hash ≡ hash)
  unfolding finish_submission same_request save_action recover_concurrent
  finish_submission-found now type hash payload (some x) db created a found h =
      elim (Bool-cases (x.request_hash == hash)) [
        | inl same ↦ (ground arith, ground arith)
        | inr other ↦ absurd (ground arith)
      ]
  finish_submission-found now type hash payload none db created a found h =
      let free = find_one-exists (has_key agent key) db.actions in
      let row = new_action now agent type key hash payload db.next_id in
      (
        ground (
          arith,
          free,
          find_one-insert_row (has_key agent key) db.actions row,
          same_text_refl key,
        ),
        ground (arith, free),
      )

module _ {J B : Type 0} (sv : Services J B) (agent : FederatedAgent)
    (key_header type_input : Option Text) (input : PayloadInput J) where
  -- What a request means, where nothing of it is missing.
  record IsComplete : Type 0 where
    key : Text
    type : Text
    payload : J
    key_given : non_empty (required_header key_header) ≡ some key
    type_given : non_empty (required_header type_input) ≡ some type
    payload_given : (db : ActionsDb J B) → normalize_payload sv input db ≡ (ok payload, db)

  abbrev marked : ℕ → ActionsDb J B → ActionsDb J B
  marked now db = (mark_agent_connection_active now agent db).1

  submit_action_complete :
      (c : IsComplete) (now : ℕ) (db : ActionsDb J B)
      → submit_action sv now agent key_header type_input input db
        ≡ finish_submission now agent.id c.type c.key
            (sv.request_hash c.type c.payload)
            c.payload
            (find_one (has_key agent.id c.key) db.actions)
            (marked now db)
  unfolding submit_action
  submit_action_complete c now db =
      ground (arith, c.key_given, c.type_given, c.payload_given (marked now db))

  normalize_cases :
      (x : PayloadInput J)
      → ((p : J) × ((db : ActionsDb J B) → normalize_payload sv x db ≡ (ok p, db)))
        ⊎ ((f : Failure) × ((db : ActionsDb J B) → normalize_payload sv x db ≡ (err f, db)))
  unfolding normalize_payload
  normalize_cases PayloadInput.missing = inl (sv.empty_payload, λ db. refl)
  normalize_cases PayloadInput.no_object = inr (_, λ db. refl)
  normalize_cases (PayloadInput.object p) = inl (p, λ db. refl)

  submit_action-IsComplete :
      (now : ℕ) (db : ActionsDb J B) (r : Submitted J)
      → (submit_action sv now agent key_header type_input input db).0 ≡ ok r
      → IsComplete
  unfolding submit_action
  submit_action-IsComplete now db r h =
      elim (Option-cases (non_empty (required_header key_header))) [
        | inl none_given ↦ absurd (ground arith)
        | inr (key, k) ↦ elim (Option-cases (non_empty (required_header type_input))) [
          | inl none_given ↦ absurd (ground arith)
          | inr (type, t) ↦ elim (normalize_cases input) [
            | inl (p, g) ↦ record {
              key = key;
              type = type;
              payload = p;
              key_given = k;
              type_given = t;
              payload_given = g;
            }
            | inr (f, g) ↦ absurd (ground (arith, g (marked now db)))
          ]
        ]
      ]

  submit_action_known :
      (c : IsComplete) (now : ℕ) (db : ActionsDb J B) (a : FederationActionEntity J)
      → find_one (has_key agent.id c.key) db.actions ≡ some a
      → a.request_hash ≡ sv.request_hash c.type c.payload
      → submit_action sv now agent key_header type_input input db ≡ (ok (false, a), marked now db)
  unfolding finish_submission same_request
  submit_action_known c now db a found same =
      submit_action_complete c now db ∙ ground (arith, found, same)

  -- An accepted request that is sent again after any steps, its action executed or not, is answered
  -- with the same action, as one that is not new, and makes no other.
  pub submit_action_again :
      (now later : ℕ) (steps : List (ℕ × ActionStep J)) (db : ActionsDb J B) (created : Bool)
      (a : FederationActionEntity J)
      → (submit_action sv now agent key_header type_input input db).0 ≡ ok (created, a)
      → (let db' =
            take_steps sv steps (submit_action sv now agent key_header type_input input db).1 in
          (a' : FederationActionEntity J) × ((submit_action sv later agent key_header type_input
              input db').0
            ≡ ok (false, a'))
          × ((submit_action sv later agent key_header type_input input db').1.actions ≡ db'.actions)
          × (a'.id ≡ a.id))
  submit_action_again now later steps db created a h =
      let c = submit_action-IsComplete now db (created, a) h in
      let made = submit_action_complete c now db in
      let (found, hash) =
        finish_submission-found agent.id c.key now c.type (sv.request_hash c.type c.payload)
          c.payload (find_one (has_key agent.id c.key) db.actions) (marked now db) created a refl
          (ap (λ x. x.0) (sym made) ∙ h) in
      let first = (submit_action sv now agent key_header type_input input db).1 in
      let (a', found', same) =
        take_steps-KeepsAction agent.id c.key sv steps first a
          (ap (λ x. find_one (has_key agent.id c.key) x.1.actions) made ∙ found) in
      let known =
        submit_action_known c later (take_steps sv steps first) a' found' (same.same_hash ∙ hash) in
      (a', ap (λ x. x.0) known, ap (λ x. x.1.actions) known, same.same_id)
