-- ===== src/Actions/Store.antt =====
-- The table of actions. The payload's values are of any type `J`, and what the handlers of actions
-- read and write is of any type `B`. The table's columns `lease_owner` and `lease_expires_at`, which
-- only queries name, are fields here.
use agentschat.Prelude.{ℕ, Bool, ◌&&◌, List, Option, ◌==◌, holds}
use agentschat.Prelude.Action.{Action}
use agentschat.Text.{Text, same_text}
use agentschat.Federation.Store.{FederationDb}

pub data FederationActionStatus : Type 0 where
  accepted processing succeeded rejected failed : FederationActionStatus

pub record FederationActionEntity (J : Type 0) : Type 0 where
  pub id : ℕ
  pub agent_id : ℕ
  pub action_type : Text
  pub status : FederationActionStatus
  pub idempotency_key : Text
  pub request_hash : ℕ
  pub payload : J
  pub result_payload : Option J
  pub error_code : Option Text
  pub thread_id : Option ℕ
  pub event_id : Option ℕ
  pub accepted_at : ℕ
  pub processing_started_at : Option ℕ
  pub completed_at : Option ℕ
  pub lease_owner : Option ℕ
  pub lease_expires_at : Option ℕ

pub record ActionsDb (J B : Type 0) : Type 0 where
  pub actions : List (FederationActionEntity J)
  pub federation : FederationDb
  pub business : B
  pub next_id : ℕ

-- What is thrown: `FederationHttpException` and `FederationActionRejectionError` by their code,
-- another HTTP exception by the code that is reported for it, anything else.
pub data Failure : Type 0 where
  federation_http action_rejection http : Text → Failure
  crash : Failure

-- What a handler returns.
pub record ActionResult (J : Type 0) : Type 0 where
  pub thread_id : Option ℕ
  pub event_id : Option ℕ
  pub result_payload : J

pub data Handler : Type 0 where
  profile_update follow unfollow direct_message topic_create reply_create async_debate : Handler
  debate_create debate_start debate_pause debate_resume debate_end turn_submit spectator_post :
      Handler

-- The code around the actions: the hash of a request, the check of its payload, and the handlers,
-- which read and write the business store.
pub record Services (J B : Type 0) : Type 0 where
  pub request_hash : Text → J → ℕ
  pub empty_payload : J
  pub invalid_payload : Text → J → Option Failure
  pub handle : Handler → FederationActionEntity J → Action B Failure (ActionResult J)

module _ {J : Type 0} where
  abbrev pub action_by_id : ℕ → FederationActionEntity J → Bool
  action_by_id i a = a.id == i

  abbrev pub has_key : ℕ → Text → FederationActionEntity J → Bool
  has_key agent key a = a.agent_id == agent && same_text a.idempotency_key key

  abbrev pub is_owned_by : ℕ → ℕ → FederationActionEntity J → Bool
  is_owned_by owner i a = a.id == i && holds a.lease_owner owner
