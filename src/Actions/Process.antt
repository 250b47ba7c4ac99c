-- ===== src/Actions/Process.antt =====
-- `recoverActions`, `processAcceptedAction` and `executeAction`. The work runs in a transaction that
-- holds the action's row, so that it is one step here; before it, and between it and the note of its
-- failure, other processes may take steps.
use agentschat.Prelude.{
  ℕ, zero, suc, ◌+◌, Bool, true, false, ◌&&◌, ◌||◌, List, [], ◌∷◌, Option, none, some, leb, ◌==◌,
  if◌then◌else◌,
}
use agentschat.Prelude.Table.{find_one, find_by, exists, update, order_by}
use agentschat.Prelude.Action.{
  Action, Result, ok, err, pure, gets, throw, or_throw, in_transaction, ◌>>=◌, ◌>>◌,
}
use agentschat.Text.{Text, codes, same_text}
use agentschat.Actions.Store.{
  FederationActionStatus, FederationActionEntity, ActionsDb, Failure, ActionResult, Handler,
  Services, action_by_id, is_owned_by,
}

abbrev pub is_accepted : FederationActionStatus → Bool
is_accepted FederationActionStatus.accepted = true
is_accepted _ = false

abbrev pub is_processing : FederationActionStatus → Bool
is_processing FederationActionStatus.processing = true
is_processing _ = false

-- The terminal statuses.
abbrev pub is_settled : FederationActionStatus → Bool
is_settled FederationActionStatus.accepted = false
is_settled FederationActionStatus.processing = false
is_settled _ = true

abbrev is_over : ℕ → Option ℕ → Bool
is_over now none = true
is_over now (some t) = leb t now

-- Where an action of some type goes.
pub data Route : Type 0 where
  to : Handler → Route
  reject : Text → Route

abbrev pub routes : List (Text × Handler)
routes =
    (codes "agent.profile.update", Handler.profile_update)
    ∷ (codes "agent.follow", Handler.follow)
    ∷ (codes "agent.unfollow", Handler.unfollow)
    ∷ (codes "dm.send", Handler.direct_message)
    ∷ (codes "forum.topic.create", Handler.topic_create)
    ∷ (codes "forum.reply.create", Handler.reply_create)
    ∷ (codes "forum.debate.create", Handler.async_debate)
    ∷ (codes "forum.debate.join", Handler.async_debate)
    ∷ (codes "forum.debate.turn", Handler.async_debate)
    ∷ (codes "forum.debate.withdraw", Handler.async_debate)
    ∷ (codes "forum.debate.close", Handler.async_debate)
    ∷ (codes "debate.create", Handler.debate_create)
    ∷ (codes "debate.start", Handler.debate_start)
    ∷ (codes "debate.pause", Handler.debate_pause)
    ∷ (codes "debate.resume", Handler.debate_resume)
    ∷ (codes "debate.end", Handler.debate_end)
    ∷ (codes "debate.turn.submit", Handler.turn_submit)
    ∷ (codes "debate.spectator.post", Handler.spectator_post)
    ∷ []

unfoldable pub route_among : Text → List (Text × Handler) → Route
unfolding same_text
route_among type [] = Route.reject (
    if same_text type (codes "claim.confirm")
    then codes "control_authorization_required"
    else codes "unsupported_action")
route_among type ((name, handler) ∷ rest) =
    if same_text type name then Route.to handler else route_among type rest

abbrev pub error_of : Failure → FederationActionStatus × Text
error_of (Failure.federation_http code) = (FederationActionStatus.rejected, code)
error_of (Failure.action_rejection code) = (FederationActionStatus.rejected, code)
error_of (Failure.http code) = (FederationActionStatus.rejected, code)
error_of Failure.crash = (FederationActionStatus.failed, codes "internal_error")

module _ {J : Type 0} where
  -- Accepted, or left by a process whose lease is over.
  abbrev pub is_due : ℕ → FederationActionEntity J → Bool
  is_due now a = is_accepted a.status || is_processing a.status && is_over now a.lease_expires_at

  abbrev pub is_claimable : ℕ → ℕ → FederationActionEntity J → Bool
  is_claimable now i a = a.id == i && is_due now a

  abbrev pub claimed_action : ℕ → ℕ → FederationActionEntity J → FederationActionEntity J
  claimed_action now owner a = record a {
    status = FederationActionStatus.processing;
    processing_started_at = some now;
    lease_owner = some owner;
    lease_expires_at = some (now + 30000);
  }

  abbrev pub succeeded_action :
      ℕ → ActionResult J → FederationActionEntity J → FederationActionEntity J
  succeeded_action now r a = record a {
    status = FederationActionStatus.succeeded;
    thread_id = r.thread_id;
    event_id = r.event_id;
    result_payload = some r.result_payload;
    completed_at = some now;
    error_code = none;
  }

  abbrev pub released_action : FederationActionEntity J → FederationActionEntity J
  released_action a = record a { lease_owner = none; lease_expires_at = none }

  abbrev pub failed_action : ℕ → Failure → FederationActionEntity J → FederationActionEntity J
  failed_action now f a = record a {
    status = (error_of f).0;
    error_code = some (error_of f).1;
    completed_at = some now;
    lease_owner = none;
    lease_expires_at = none;
  }

  abbrev first_ids : ℕ → List (FederationActionEntity J) → List ℕ
  first_ids zero xs = []
  first_ids (suc n) [] = []
  first_ids (suc n) (a ∷ xs) = a.id ∷ first_ids n xs

module _ {J B : Type 0} where
  -- The oldest four actions that are due.
  unfoldable pub recoverable_actions : ℕ → ActionsDb J B → List ℕ
  recoverable_actions now db =
      first_ids 4 (
        order_by (λ (a : FederationActionEntity J). a.accepted_at)
          (find_by (is_due now) db.actions))

  abbrev pub change_actions :
      (FederationActionEntity J → Bool)
      → (FederationActionEntity J → FederationActionEntity J)
      → ActionsDb J B
      → ActionsDb J B
  change_actions p f db = record db { actions = update p f db.actions }

  -- Whether the action was claimed.
  unfoldable pub claim_action : ℕ → ℕ → ℕ → Action (ActionsDb J B) Failure Bool
  claim_action now owner i db =
      if exists (is_claimable now i) db.actions
      then (ok true, change_actions (is_claimable now i) (claimed_action now owner) db)
      else (ok false, db)

  abbrev pub run_route :
      Services J B → FederationActionEntity J → Route → Action B Failure (ActionResult J)
  run_route sv a (Route.to handler) = sv.handle handler a
  run_route sv a (Route.reject code) = throw (Failure.action_rejection code)

  unfoldable pub execute_action :
      Services J B → FederationActionEntity J → Action B Failure (ActionResult J)
  execute_action sv a = elim (sv.invalid_payload a.action_type a.payload) [
    | some f ↦ throw f
    | none ↦ run_route sv a (route_among a.action_type routes)
  ]

  abbrev pub in_business : {A : Type 0} → Action B Failure A → Action (ActionsDb J B) Failure A
  in_business m db = ((m db.business).0, record db { business = (m db.business).1 })

  abbrev pub save_success : ℕ → ℕ → ActionResult J → Action (ActionsDb J B) Failure (Unit {0})
  save_success now i r db = (ok tt, change_actions (action_by_id i) (succeeded_action now r) db)

  abbrev pub release_lease : ℕ → Action (ActionsDb J B) Failure (Unit {0})
  release_lease i db = (ok tt, change_actions (action_by_id i) released_action db)

  unfoldable pub perform_held : Services J B → ℕ → ℕ → Action (ActionsDb J B) Failure (Unit {0})
  perform_held sv now i = do
    found ← gets (λ db. find_one (action_by_id i) db.actions)
    a ← or_throw found Failure.crash
    result ← in_business (execute_action sv a)
    save_success now i result
    release_lease i

  abbrev pub perform_if_held :
      Services J B → ℕ → ℕ → Bool → Action (ActionsDb J B) Failure (Unit {0})
  perform_if_held sv now i true = perform_held sv now i
  perform_if_held sv now i false = pure tt

  -- Nothing happens where the lease is no longer the process's.
  unfoldable pub perform_action :
      Services J B → ℕ → ℕ → ℕ → Action (ActionsDb J B) Failure (Unit {0})
  perform_action sv now owner i = in_transaction (do
    held ← gets (λ db. exists (is_owned_by owner i) db.actions)
    perform_if_held sv now i held)

  unfoldable pub note_failure : ℕ → ℕ → ℕ → Failure → Action (ActionsDb J B) Failure (Unit {0})
  note_failure now owner i f db = (
    ok tt,
    change_actions (λ a. is_owned_by owner i a && is_processing a.status) (failed_action now f) db,
  )

  abbrev pub note_thrown :
      ℕ
      → ℕ
      → ℕ
      → Result Failure (Unit {0}) × ActionsDb J B
      → Result Failure (Unit {0}) × ActionsDb J B
  note_thrown now owner i (ok u, db) = (ok u, db)
  note_thrown now owner i (err f, db) = note_failure now owner i f db

  abbrev pub process_claimed :
      Services J B → ℕ → ℕ → ℕ → Bool → Action (ActionsDb J B) Failure (Unit {0})
  process_claimed sv now owner i false db = (ok tt, db)
  process_claimed sv now owner i true db =
      note_thrown now owner i (perform_action sv now owner i db)

  -- Where nothing comes between.
  unfoldable pub process_accepted_action :
      Services J B → ℕ → ℕ → ℕ → Action (ActionsDb J B) Failure (Unit {0})
  process_accepted_action sv now owner i = do
    claimed ← claim_action now owner i
    process_claimed sv now owner i claimed
