-- ===== src/Debate/Store.antt =====
-- The rows that the debate service reads and writes, and the store they stand in. A time is a
-- number of milliseconds; `created_at` of a session is set by the database.
use agentschat.Prelude.{ℕ, suc, Bool, ◌&&◌, List, Option, none, some, ◌==◌}
use agentschat.Prelude.Table.{find_one, update, insert_row, order_by, find_by}
use agentschat.Prelude.Action
use agentschat.Prelude.Action.{Action, ok}
use agentschat.Domain.{
  SubjectType, Subject, AgentStatus, DebateSessionStatus, DebateSeatStatus, DebateSeatStance,
  DebateTurnStatus, ThreadParticipantRole, EventActorType,
}
use agentschat.Text.{Text}

pub record AgentEntity : Type 0 where
  pub id : ℕ
  pub status : AgentStatus

-- A debate's thread is always a public `debate_spectator` thread.
pub record ThreadEntity : Type 0 where
  pub id : ℕ
  pub title : Text

pub record ThreadParticipantEntity : Type 0 where
  pub id : ℕ
  pub thread_id : ℕ
  pub participant_type : SubjectType
  pub participant_subject_id : ℕ
  pub user_id : Option ℕ
  pub agent_id : Option ℕ
  pub role : ThreadParticipantRole

pub record DebateSessionEntity : Type 0 where
  pub id : ℕ
  pub thread_id : ℕ
  pub topic : Text
  pub pro_stance : Text
  pub con_stance : Text
  pub host_type : SubjectType
  pub host_user_id : Option ℕ
  pub host_agent_id : Option ℕ
  pub status : DebateSessionStatus
  pub free_entry : Bool
  pub human_host_allowed : Bool
  pub current_turn_number : ℕ
  pub started_at : Option ℕ
  pub archived_at : Option ℕ
  pub created_at : ℕ

pub record DebateSeatEntity : Type 0 where
  pub id : ℕ
  pub debate_session_id : ℕ
  pub stance : DebateSeatStance
  pub status : DebateSeatStatus
  pub agent_id : Option ℕ
  pub seat_order : ℕ

-- The keys that the service ever writes into a turn's `metadata`; spreading an object over it
-- is an update of this record.
pub record TurnMetadata : Type 0 where
  pub stance : Option DebateSeatStance
  pub assigned_agent_id : Option ℕ
  pub missed_at : Option ℕ
  pub missed_seat_id : Option ℕ
  pub seat_id : Option ℕ
  pub submitted_by_agent_id : Option ℕ
  pub ended_at : Option ℕ
  pub ended_reason : Option Text

pub record DebateTurnEntity : Type 0 where
  pub id : ℕ
  pub debate_session_id : ℕ
  pub seat_id : ℕ
  pub turn_number : ℕ
  pub status : DebateTurnStatus
  pub event_id : Option ℕ
  pub deadline_at : Option ℕ
  pub submitted_at : Option ℕ
  pub metadata : TurnMetadata

-- An event's type together with the `metadata` that goes with that type.
pub data DebateEvent : Type 0 where
  create : Text → Text → Text → Bool → Bool → List (ℕ × DebateSeatStance × Option ℕ) → DebateEvent
  ready_to_start : ℕ → DebateEvent
  started : ℕ → DebateEvent
  host_paused : Text → ℕ → DebateEvent
  paused : Text → ℕ → DebateSeatStance → ℕ → DebateEvent
  resumed : ℕ → DebateEvent
  ended : ℕ → Option Text → DebateEvent
  seat_replaced : ℕ → DebateSeatStance → ℕ → ℕ → DebateEvent
  replacement_needed : ℕ → DebateSeatStance → Bool → ℕ → DebateEvent
  turn_missed : ℕ → DebateSeatStance → Option ℕ → ℕ → DebateEvent
  turn_assigned : ℕ → DebateSeatStance → Option ℕ → ℕ → Option ℕ → DebateEvent
  turn_submit : ℕ → ℕ → DebateEvent

pub record EventEntity : Type 0 where
  pub id : ℕ
  pub thread_id : ℕ
  pub actor_type : EventActorType
  pub actor_user_id : Option ℕ
  pub actor_agent_id : Option ℕ
  pub target_id : ℕ
  pub event : DebateEvent
  pub occurred_at : ℕ

-- What an operator's action does to its target.
pub data ModerationKind : Type 0 where
  suspend mute rate_limit other : ModerationKind

-- An action against a user or an agent. Of its `metadata` the two numbers that are read stand
-- here, in whole seconds.
pub record ModerationActionEntity : Type 0 where
  pub action : ModerationKind
  pub target : Subject
  pub duration_seconds : Option ℕ
  pub min_interval_seconds : Option ℕ
  pub created_at : ℕ

-- `notified` lists the events that the notification service has handled, oldest first, and
-- `fan_out_fails` tells on which it throws. An event is handed over at most once.
pub record Db : Type 0 where
  pub agents : List AgentEntity
  pub threads : List ThreadEntity
  pub participants : List ThreadParticipantEntity
  pub sessions : List DebateSessionEntity
  pub seats : List DebateSeatEntity
  pub turns : List DebateTurnEntity
  pub events : List EventEntity
  pub actions : List ModerationActionEntity
  pub next_id : ℕ
  pub notified : List ℕ
  pub fan_out_fails : ℕ → Bool

-- What an exception says, one constructor for each message.
pub data Reason : Type 0 where
  debate_not_found not_host not_pending not_live not_paused not_endable : Reason
  two_occupied_seats seat_must_be_occupied turn_closed two_canonical_seats : Reason
  opening_seat_unresolved previous_seat_unresolved requires_two_seats : Reason
  assigned_seat_unresolved replacement_must_occupy no_replacement_entry host_is_debater : Reason
  same_agent seat_not_found seat_not_replacing seat_id_required agent_not_found : Reason
  agent_suspended agent_occupied turn_number_invalid not_current_turn not_seated : Reason
  seat_not_occupied turn_not_accepting turn_expired not_seats_turn : Reason
  comments_not_open debate_over debater_cannot_spectate field_required too_long : Reason
  host_type_invalid host_mismatch actor_suspended actor_muted rate_limited surface_blocked
        content_rejected event_not_found not_seated_here :
      Reason

-- The exceptions of the framework that the service throws, by their HTTP status, and any other.
pub data HttpException : Type 0 where
  bad_request forbidden not_found conflict too_many_requests : Reason → HttpException
  fan_out_failed : HttpException

abbrev pub M : Type 0 → Type 0
M = Action Db HttpException

abbrev pub session_by_id : ℕ → DebateSessionEntity → Bool
session_by_id i s = s.id == i

abbrev pub seat_by_id : ℕ → DebateSeatEntity → Bool
seat_by_id i s = s.id == i

abbrev pub turn_by_number : ℕ → ℕ → DebateTurnEntity → Bool
turn_by_number session n t = t.debate_session_id == session && t.turn_number == n

-- `findOne({ where: { id } })`, throwing where there is no row
unfoldable pub find_session : ℕ → M DebateSessionEntity
find_session i db =
    Action.or_throw (find_one (session_by_id i) db.sessions)
      (HttpException.not_found debate_not_found) db

unfoldable pub update_session : ℕ → (DebateSessionEntity → DebateSessionEntity) → M (Unit {0})
update_session i f db = (ok tt, record db { sessions = update (session_by_id i) f db.sessions })

unfoldable pub update_seat : ℕ → (DebateSeatEntity → DebateSeatEntity) → M (Unit {0})
update_seat i f db = (ok tt, record db { seats = update (seat_by_id i) f db.seats })

unfoldable pub update_turn : ℕ → (DebateTurnEntity → DebateTurnEntity) → M (Unit {0})
update_turn i f db = (ok tt, record db { turns = update (λ t. t.id == i) f db.turns })

unfoldable pub find_turn : ℕ → ℕ → Db → Option DebateTurnEntity
find_turn session n db = find_one (turn_by_number session n) db.turns

-- `loadSeats`
unfoldable pub load_seats : ℕ → Db → List DebateSeatEntity
load_seats session db =
    order_by (λ s. s.seat_order) (find_by (λ s. s.debate_session_id == session) db.seats)

unfoldable pub find_seat : ℕ → List DebateSeatEntity → Option DebateSeatEntity
find_seat i seats = find_one (seat_by_id i) seats

unfoldable pub bind_actor : Subject → EventActorType × Option ℕ × Option ℕ
bind_actor a = elim a.type [
  | SubjectType.human ↦ (EventActorType.human, some a.id, none)
  | SubjectType.agent ↦ (EventActorType.agent, none, some a.id)
]

abbrev pub bind_system_actor : EventActorType × Option ℕ × Option ℕ
bind_system_actor = (EventActorType.system, none, none)

-- `createDebateEvent`; the id of the new row is returned
unfoldable pub create_debate_event :
    ℕ → DebateSessionEntity → EventActorType × Option ℕ × Option ℕ → DebateEvent → M ℕ
create_debate_event now d actor e db = (
  ok db.next_id,
  record db {
    events = insert_row db.events (record {
      id = db.next_id;
      thread_id = d.thread_id;
      actor_type = actor.0;
      actor_user_id = actor.1;
      actor_agent_id = actor.2;
      target_id = d.id;
      event = e;
      occurred_at = now;
    });
    next_id = suc db.next_id;
  },
)

-- `createSystemDebateEvent`
unfoldable pub create_system_debate_event : ℕ → DebateSessionEntity → DebateEvent → M ℕ
unfolding create_debate_event
create_system_debate_event now d e = create_debate_event now d bind_system_actor e
