-- ===== src/Actions/Submit.antt =====
-- `submitAction`, `lookupAction` and `getAction`.
use agentschat.Prelude.{
  ℕ, suc, Bool, true, false, not, ◌&&◌, ◌||◌, List, [], Option, none, some, ltb, ◌==◌, length,
  if◌then◌else◌,
}
use agentschat.Prelude.Table.{find_one, exists, insert_row}
use agentschat.Prelude.Action.{Action, ok, pure, gets, throw, throw_if, or_throw, ◌>>=◌, ◌>>◌}
use agentschat.Text.{Text, codes, trim, non_empty, same_text}
use agentschat.Federation.Store.{FederatedAgent}
use agentschat.Federation.Presence.{record_agent_activity}
use agentschat.Actions.Store.{
  FederationActionStatus, FederationActionEntity, ActionsDb, Failure, Services, federation_http,
  has_key,
}

-- A payload as it arrives: missing, no object, or an object.
pub data PayloadInput (J : Type 0) : Type 0 where
  missing no_object : PayloadInput J
  object : J → PayloadInput J

-- Whether the action is new, and the action.
abbrev pub Submitted : Type 0 → Type 0
Submitted J = Bool × FederationActionEntity J

pub data LookupResult (J : Type 0) : Type 0 where
  unknown : LookupResult J
  recorded : FederationActionEntity J → LookupResult J

-- What `save` does: the unique index on agent and key may refuse the row.
pub data Saved (J : Type 0) : Type 0 where
  saved : FederationActionEntity J → Saved J
  unique_violation : Saved J

abbrev pub required_header : Option Text → Text
required_header none = []
required_header (some s) = trim s

module _ {J : Type 0} where
  abbrev pub new_action : ℕ → ℕ → Text → Text → ℕ → J → ℕ → FederationActionEntity J
  new_action now agent type key hash payload id = record {
    id = id;
    agent_id = agent;
    action_type = type;
    status = FederationActionStatus.accepted;
    idempotency_key = key;
    request_hash = hash;
    payload = payload;
    result_payload = none;
    error_code = none;
    thread_id = none;
    event_id = none;
    accepted_at = now;
    processing_started_at = none;
    completed_at = none;
    lease_owner = none;
    lease_expires_at = none;
  }

  abbrev is_allowed : Option (List Text) → FederationActionEntity J → Bool
  is_allowed none a = true
  is_allowed (some types) a = exists (λ t. same_text t a.action_type) types

  abbrev pub look_up : Option (List Text) → Option (FederationActionEntity J) → LookupResult J
  look_up allowed none = LookupResult.unknown
  look_up allowed (some a) =
      if is_allowed allowed a then LookupResult.recorded a else LookupResult.unknown

module _ {J B : Type 0} where
  abbrev pub mark_agent_connection_active :
      ℕ → FederatedAgent → Action (ActionsDb J B) Failure (Unit {0})
  mark_agent_connection_active now agent db =
      (ok tt, record db { federation = (record_agent_activity now agent false db.federation).1 })

  -- The trimmed text, where it is not empty.
  abbrev pub required : Text → Text → Action (ActionsDb J B) Failure Text
  required code s = or_throw (non_empty s) (federation_http code)

  unfoldable pub normalize_payload :
      Services J B → PayloadInput J → Action (ActionsDb J B) Failure J
  normalize_payload sv PayloadInput.missing = pure sv.empty_payload
  normalize_payload sv PayloadInput.no_object = throw (federation_http (codes "invalid_payload"))
  normalize_payload sv (PayloadInput.object p) = pure p

  unfoldable pub save_action :
      (ℕ → FederationActionEntity J) → ℕ → Text → Action (ActionsDb J B) Failure (Saved J)
  save_action row agent key db =
      if exists (has_key agent key) db.actions then (ok Saved.unique_violation, db) else (
        ok (Saved.saved (row db.next_id)),
        record db { actions = insert_row db.actions (row db.next_id); next_id = suc db.next_id },
      )

  -- The action that has the key, where the request is the same.
  unfoldable pub same_request :
      ℕ → FederationActionEntity J → Action (ActionsDb J B) Failure (Submitted J)
  same_request hash a = do
    throw_if (not (a.request_hash == hash)) (federation_http (codes "idempotency_key_conflict"))
    pure (false, a)

  -- `recoverConcurrentIdempotentAction`: the key was taken since it was looked up.
  unfoldable pub recover_concurrent :
      ℕ → Text → ℕ → Saved J → Action (ActionsDb J B) Failure (Submitted J)
  recover_concurrent agent key hash (Saved.saved a) = pure (true, a)
  recover_concurrent agent key hash Saved.unique_violation = do
    existing ← gets (λ db. find_one (has_key agent key) db.actions)
    a ← or_throw existing Failure.crash
    same_request hash a

  -- What follows the look-up of the key, which other requests may have overtaken.
  unfoldable pub finish_submission :
      ℕ
      → ℕ
      → Text
      → Text
      → ℕ
      → J
      → Option (FederationActionEntity J)
      → Action (ActionsDb J B) Failure (Submitted J)
  finish_submission now agent type key hash payload (some a) = same_request hash a
  finish_submission now agent type key hash payload none = do
    result ← save_action (new_action now agent type key hash payload) agent key
    recover_concurrent agent key hash result

  unfoldable pub submit_action :
      Services J B
      → ℕ
      → FederatedAgent
      → Option Text
      → Option Text
      → PayloadInput J
      → Action (ActionsDb J B) Failure (Submitted J)
  submit_action sv now agent key_header type_input input = do
    mark_agent_connection_active now agent
    key ← required (codes "idempotency_key_required") (required_header key_header)
    type ← required (codes "action_type_required") (required_header type_input)
    payload ← normalize_payload sv input
    existing ← gets (λ db. find_one (has_key agent.id key) db.actions)
    finish_submission now agent.id type key (sv.request_hash type payload) payload existing

  -- The key is a text; another value is as the empty one.
  unfoldable pub lookup_action :
      FederatedAgent → Text → Option (List Text) → Action (ActionsDb J B) Failure (LookupResult J)
  lookup_action agent input allowed = do
    let key = trim input
    throw_if (length key == 0 || ltb 255 (length key))
        (federation_http (codes "invalid_idempotency_key"))
    gets (λ db. look_up allowed (find_one (has_key agent.id key) db.actions))

  unfoldable pub get_action :
      FederatedAgent → ℕ → Action (ActionsDb J B) Failure (FederationActionEntity J)
  get_action agent i = do
    found ← gets (λ db.
        find_one (λ (a : FederationActionEntity J). a.id == i && a.agent_id == agent.id) db.actions)
    or_throw found (federation_http (codes "action_not_found"))
