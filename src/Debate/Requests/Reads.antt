-- ===== src/Debate/Requests/Reads.antt =====
-- What the parts of a request outside its transaction write: nothing, or the agents' statuses.
use mathlib.Core.List.{reverse}
use agentschat.Prelude.{ℕ, ◌≡◌, refl, List, [], ◌∷◌, arith}
use agentschat.Prelude.Table.{find_by, order_by}
use agentschat.Text.{Unknown}
use agentschat.Domain.{Subject, same_subject}
use agentschat.Debate.Store.{Db, ModerationActionEntity, HttpException, field_required, too_long}
use agentschat.Debate.Presence.{
  sync_each, sync_agent_status, process_event_by_id, process_event_ids,
}
use agentschat.Debate.Create.{required_string}
use agentschat.Debate.Eligible.{assert_agent_eligible}
use agentschat.Debate.Requests.{assert_debate_writable}
use agentschat.Moderation.Actor.{assert_actions, assert_actor_allowed}

pub assert_actions-store :
    (now : ℕ) (actor : Subject) (xs : List ModerationActionEntity) (db : Db)
    → (assert_actions now actor xs db).1 ≡ db
unfolding assert_actions
assert_actions-store now actor [] db = refl
assert_actions-store now actor (a ∷ rest) db =
    ground (arith, assert_actions-store now actor rest db)

-- Checking the actor reads only.
pub assert_actor_allowed-store :
    (now : ℕ) (actor : Subject) (db : Db) → (assert_actor_allowed now actor db).1 ≡ db
unfolding assert_actor_allowed
assert_actor_allowed-store now actor db = ground (
  arith,
  assert_actions-store now actor
      (reverse (
        order_by (λ (a : ModerationActionEntity). a.created_at)
          (find_by (λ (a : ModerationActionEntity). same_subject a.target actor) db.actions)))
      db,
)

process_event_by_id-notified :
    (i : ℕ) (db : Db)
    → (process_event_by_id i db).1 ≡ record db { notified = (process_event_by_id i db).1.notified }
unfolding process_event_by_id
process_event_by_id-notified i db = ground arith

-- Handing events over writes the list of those that were handled, whether or not one fails.
pub process_event_ids-notified :
    (ids : List ℕ) (db : Db)
    → (process_event_ids ids db).1 ≡ record db { notified = (process_event_ids ids db).1.notified }
unfolding process_event_ids
process_event_ids-notified [] db = refl
process_event_ids-notified (i ∷ ids) db = ground (
  arith,
  process_event_by_id-notified i db,
  process_event_ids-notified ids (process_event_by_id i db).1,
)

abbrev pub missing : HttpException
missing = HttpException.bad_request field_required

pub sync_agent_status-agents :
    (a : ℕ) (db : Db)
    → sync_agent_status a db ≡ record db { agents = (sync_agent_status a db).agents }
unfolding sync_agent_status
sync_agent_status-agents a db = ground arith

pub sync_each-agents :
    (ids : List ℕ) (db : Db) → sync_each ids db ≡ record db { agents = (sync_each ids db).agents }
unfolding sync_each
sync_each-agents [] db = refl
sync_each-agents (a ∷ ids) db =
    ground (arith, sync_agent_status-agents a db, sync_each-agents ids (sync_agent_status a db))

pub assert_debate_writable-store : (i : ℕ) (db : Db) → (assert_debate_writable i db).1 ≡ db
unfolding assert_debate_writable
assert_debate_writable-store i db = ground arith

pub required_string-store : (v : Unknown) (db : Db) → (required_string v db).1 ≡ db
unfolding required_string
required_string-store v db = ground arith

pub assert_agent_eligible-store : (a : ℕ) (db : Db) → (assert_agent_eligible a db).1 ≡ db
unfolding assert_agent_eligible
assert_agent_eligible-store a db = ground arith

abbrev pub too_long_error : HttpException
too_long_error = HttpException.bad_request too_long
