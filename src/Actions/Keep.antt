-- ===== src/Actions/Keep.antt =====
-- What every step on actions keeps, from what each write keeps.
use agentschat.Prelude.{ℕ, ◌≡◌, refl, Bool, true, false, Option, none, some}
use agentschat.Prelude.Keeps.{Preorder, Keeps, Keeps-then, Keeps-pure, keeping}
use agentschat.Prelude.Action.{Action}
use agentschat.Text.{Text}
use agentschat.Federation.Store.{FederatedAgent}
use agentschat.Actions.Store.{FederationActionEntity, ActionsDb, ActionResult, Failure, Services}
use agentschat.Actions.Submit.{
  PayloadInput, Saved, new_action, mark_agent_connection_active, normalize_payload, save_action,
  same_request, recover_concurrent, finish_submission, submit_action,
}
use agentschat.Actions.Process.{
  claim_action, in_business, save_success, release_lease, perform_held, perform_if_held,
  perform_action, note_failure,
}
use agentschat.Actions.Steps.{ActionStep, take_step}

-- An order on stores that every write of the service keeps.
pub record Writes {J B : Type 0} (P : Preorder (ActionsDb J B)) : Type 1 where
  pub quiet :
      {A : Type 0} (m : Action (ActionsDb J B) Failure A)
      → ((db : ActionsDb J B) → (m db).1.actions ≡ db.actions)
      → ((db : ActionsDb J B) → (m db).1.next_id ≡ db.next_id)
      → Keeps P m
  pub saves :
      (now agent : ℕ) (type key : Text) (hash : ℕ) (payload : J)
      → Keeps P (save_action (new_action now agent type key hash payload) agent key)
  pub claims : (now owner i : ℕ) → Keeps P (claim_action now owner i)
  pub succeeds : (now i : ℕ) (r : ActionResult J) → Keeps P (save_success now i r)
  pub releases : (i : ℕ) → Keeps P (release_lease i)
  pub fails : (now owner i : ℕ) (f : Failure) → Keeps P (note_failure now owner i f)

module _ {J B : Type 0} (P : Preorder (ActionsDb J B)) (w : Writes P) where
  same_request-Keeps : (hash : ℕ) (a : FederationActionEntity J) → Keeps P (same_request hash a)
  unfolding same_request
  same_request-Keeps hash a = search keeping

  recover_concurrent-Keeps :
      (agent : ℕ) (key : Text) (hash : ℕ) (s : Saved J)
      → Keeps P (recover_concurrent agent key hash s)
  unfolding recover_concurrent
  recover_concurrent-Keeps agent key hash (Saved.saved a) = Keeps-pure P _
  recover_concurrent-Keeps agent key hash Saved.unique_violation =
      search (keeping, same_request-Keeps)

  finish_submission-Keeps :
      (now agent : ℕ) (type key : Text) (hash : ℕ) (payload : J)
      (o : Option (FederationActionEntity J))
      → Keeps P (finish_submission now agent type key hash payload o)
  unfolding finish_submission
  finish_submission-Keeps now agent type key hash payload (some a) = same_request-Keeps hash a
  finish_submission-Keeps now agent type key hash payload none =
      search (keeping, recover_concurrent-Keeps, w.saves)

  normalize-Keeps :
      (sv : Services J B) (input : PayloadInput J) → Keeps P (normalize_payload sv input)
  unfolding normalize_payload
  normalize-Keeps sv PayloadInput.missing = w.quiet _ (λ db. refl) (λ db. refl)
  normalize-Keeps sv PayloadInput.no_object = w.quiet _ (λ db. refl) (λ db. refl)
  normalize-Keeps sv (PayloadInput.object p) = w.quiet _ (λ db. refl) (λ db. refl)

  mark-Keeps : (now : ℕ) (a : FederatedAgent) → Keeps P (mark_agent_connection_active now a)
  mark-Keeps now a = w.quiet _ (λ db. refl) (λ db. refl)

  submit_action-Keeps :
      (sv : Services J B) (now : ℕ) (agent : FederatedAgent) (key type : Option Text)
      (input : PayloadInput J)
      → Keeps P (submit_action sv now agent key type input)
  unfolding submit_action
  submit_action-Keeps sv now agent key type input =
      search (keeping, Keeps-then, mark-Keeps, normalize-Keeps, finish_submission-Keeps) depth 14

  business-Keeps : {A : Type 0} (m : Action B Failure A) → Keeps P (in_business m)
  business-Keeps m = w.quiet _ (λ db. refl) (λ db. refl)

  perform_held-Keeps : (sv : Services J B) (now i : ℕ) → Keeps P (perform_held sv now i)
  unfolding perform_held
  perform_held-Keeps sv now i =
      search (keeping, Keeps-then, business-Keeps, w.succeeds, w.releases) depth 14

  perform_if_held-Keeps :
      (sv : Services J B) (now i : ℕ) (held : Bool) → Keeps P (perform_if_held sv now i held)
  perform_if_held-Keeps sv now i true = perform_held-Keeps sv now i
  perform_if_held-Keeps sv now i false = Keeps-pure P _

  perform_action-Keeps :
      (sv : Services J B) (now owner i : ℕ) → Keeps P (perform_action sv now owner i)
  unfolding perform_action
  perform_action-Keeps sv now owner i = search (keeping, perform_if_held-Keeps) depth 14

  pub take_step-Le :
      (sv : Services J B) (now : ℕ) (s : ActionStep J) (db : ActionsDb J B)
      → P.Le db (take_step sv now s db)
  unfolding take_step
  take_step-Le sv now (ActionStep.submit agent key type input) db =
      (submit_action-Keeps sv now agent key type input).at db
  take_step-Le sv now (ActionStep.finish_submit agent key type payload) db =
      (finish_submission-Keeps now agent type key (sv.request_hash type payload) payload none).at db
  take_step-Le sv now (ActionStep.claim owner i) db = (w.claims now owner i).at db
  take_step-Le sv now (ActionStep.perform owner i) db = (perform_action-Keeps sv now owner i).at db
  take_step-Le sv now (ActionStep.fail owner i f) db = (w.fails now owner i f).at db
