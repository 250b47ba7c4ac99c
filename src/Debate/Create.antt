-- ===== src/Debate/Create.antt =====
-- `createHumanHostedDebate`, `createAgentHostedDebate` and `createDebate`: a pending debate with its
-- thread, its two occupied seats, its participants and its first events.
use agentschat.Prelude.{
  ℕ, suc, Bool, true, false, not, List, [], ◌∷◌, Option, none, some, ltb, ◌==◌, length, or_else,
}
use agentschat.Prelude.Table.{insert_row}
use agentschat.Prelude.Action.{pure, throw_if, or_throw, in_transaction, ◌>>=◌, ◌>>◌, ok}
use agentschat.Text.{Text, Unknown, optional_string, optional_boolean}
use agentschat.Domain.{
  SubjectType, Subject, DebateSessionStatus, DebateSeatStatus, DebateSeatStance,
  ThreadParticipantRole,
}
use agentschat.Debate.Store.{
  M, HttpException, DebateSessionEntity, DebateSeatEntity, DebateEvent, bind_actor,
  create_debate_event, create_system_debate_event, field_required, too_long, host_type_invalid,
  host_mismatch,
}
use agentschat.Debate.Presence.{process_event_ids}
use agentschat.Debate.Participants.{ensure_participant}
use agentschat.Debate.Submit.{agent_subject}
use agentschat.Moderation.Actor.{assert_actor_allowed}
use agentschat.Debate.Eligible.{
  assert_distinct_debate_roles, assert_agent_eligible, assert_agents_available_for_seats,
}

-- An identifier that is missing or blank is `none`; where the two differ, a missing one is `none`
-- and a blank one is `some none`.
pub record CreateDebateInput : Type 0 where
  pub topic : Unknown
  pub pro_stance : Unknown
  pub con_stance : Unknown
  pub pro_agent_id : Option ℕ
  pub con_agent_id : Option ℕ
  pub free_entry : Unknown
  pub human_host_allowed : Unknown
  pub host_type : Option SubjectType
  pub host_id : Option (Option ℕ)
  pub host_agent_id : Option (Option ℕ)

unfoldable pub required_string : Unknown → M Text
required_string v = or_throw (optional_string v) (HttpException.bad_request field_required)

abbrev required_id : Option ℕ → M ℕ
required_id v = or_throw v (HttpException.bad_request field_required)

abbrev check_length : Text → M (Unit {0})
check_length s = throw_if (ltb 280 (length s)) (HttpException.bad_request too_long)

abbrev save_thread : Text → M ℕ
save_thread title db = (
  ok db.next_id,
  record db {
    threads = insert_row db.threads (record { id = db.next_id; title = title });
    next_id = suc db.next_id;
  },
)

-- The texts of a debate, after trimming.
pub record Motion : Type 0 where
  pub topic : Text
  pub pro_stance : Text
  pub con_stance : Text

abbrev pub new_session : ℕ → Subject → Motion → Bool → Bool → ℕ → ℕ → DebateSessionEntity
new_session now host m free human_host_allowed thread id = record {
  id = id;
  thread_id = thread;
  topic = m.topic;
  pro_stance = m.pro_stance;
  con_stance = m.con_stance;
  host_type = host.type;
  host_user_id = elim host.type [ SubjectType.human ↦ some host.id | SubjectType.agent ↦ none ];
  host_agent_id = elim host.type [ SubjectType.human ↦ none | SubjectType.agent ↦ some host.id ];
  status = DebateSessionStatus.pending;
  free_entry = free;
  human_host_allowed = human_host_allowed;
  current_turn_number = 1;
  started_at = none;
  archived_at = none;
  created_at = now;
}

unfoldable pub save_session : (ℕ → DebateSessionEntity) → M DebateSessionEntity
save_session row db = (
  ok (row db.next_id),
  record db { sessions = insert_row db.sessions (row db.next_id); next_id = suc db.next_id },
)

abbrev pub new_seat : ℕ → DebateSeatStance → ℕ → ℕ → ℕ → DebateSeatEntity
new_seat session stance agent order id = record {
  id = id;
  debate_session_id = session;
  stance = stance;
  status = DebateSeatStatus.occupied;
  agent_id = some agent;
  seat_order = order;
}

unfoldable pub save_seat : (ℕ → DebateSeatEntity) → M DebateSeatEntity
save_seat row db = (
  ok (row db.next_id),
  record db { seats = insert_row db.seats (row db.next_id); next_id = suc db.next_id },
)

abbrev seat_summary : DebateSeatEntity → ℕ × DebateSeatStance × Option ℕ
seat_summary s = (s.id, s.stance, s.agent_id)

-- An agent that hosts is told that the debate can start.
unfoldable pub ready_events : ℕ → Subject → DebateSessionEntity → M (List ℕ)
unfolding create_system_debate_event
ready_events now host d = elim host.type [
  | SubjectType.human ↦ pure []
  | SubjectType.agent ↦ do
    ready ← create_system_debate_event now d (DebateEvent.ready_to_start d.current_turn_number)
    pure (ready ∷ [])
]

pub record Created : Type 0 where
  pub session : DebateSessionEntity
  pub seats : List DebateSeatEntity
  pub event_id : ℕ
  pub follow_up_event_ids : List ℕ

-- The thread, the session and the two seats.
unfoldable pub create_rows :
    ℕ
    → Subject
    → Motion
    → Bool
    → Bool
    → ℕ
    → ℕ
    → M (DebateSessionEntity × DebateSeatEntity × DebateSeatEntity)
unfolding save_session save_seat
create_rows now host m free human_host_allowed a b = do
  thread ← save_thread m.topic
  d ← save_session (new_session now host m free human_host_allowed thread)
  pro ← save_seat (new_seat d.id DebateSeatStance.pro a 1)
  con ← save_seat (new_seat d.id DebateSeatStance.con b 2)
  pure (d, pro, con)

-- The participants of the thread and the first events.
unfoldable pub announce_debate :
    ℕ
    → Subject
    → Motion
    → ℕ
    → ℕ
    → DebateSessionEntity
    → DebateSeatEntity
    → DebateSeatEntity
    → M Created
announce_debate now host m a b d pro con = do
  ensure_participant d.thread_id host ThreadParticipantRole.host
  ensure_participant d.thread_id (agent_subject a) ThreadParticipantRole.member
  ensure_participant d.thread_id (agent_subject b) ThreadParticipantRole.member
  event ← create_debate_event now d (bind_actor host) (
      DebateEvent.create m.topic m.pro_stance m.con_stance d.free_entry d.human_host_allowed
        (seat_summary pro ∷ seat_summary con ∷ []))
  ready ← ready_events now host d
  pure (record {
    session = d;
    seats = pro ∷ con ∷ [];
    event_id = event;
    follow_up_event_ids = ready;
  })

unfoldable pub create_transaction : ℕ → Subject → Motion → Bool → Bool → ℕ → ℕ → M Created
create_transaction now host m free human_host_allowed a b = do
  assert_agents_available_for_seats (a ∷ b ∷ []) none
  (d, pro, con) ← create_rows now host m free human_host_allowed a b
  announce_debate now host m a b d pro con

unfoldable pub create_debate : ℕ → Subject → CreateDebateInput → Bool → M Created
unfolding assert_distinct_debate_roles
create_debate now host input human_host_allowed = do
  topic ← required_string input.topic
  pro_stance ← required_string input.pro_stance
  con_stance ← required_string input.con_stance
  check_length topic
  check_length pro_stance
  check_length con_stance
  a ← required_id input.pro_agent_id
  b ← required_id input.con_agent_id
  assert_distinct_debate_roles host a b
  assert_agent_eligible a
  assert_agent_eligible b
  created ← in_transaction (
      create_transaction now host
        (record { topic = topic; pro_stance = pro_stance; con_stance = con_stance })
        (or_else (optional_boolean input.free_entry) false) human_host_allowed a b)
  process_event_ids (created.event_id ∷ created.follow_up_event_ids)
  pure created

abbrev pub is_other_type : SubjectType → Option SubjectType → Bool
is_other_type t none = false
is_other_type SubjectType.human (some SubjectType.human) = false
is_other_type SubjectType.agent (some SubjectType.agent) = false
is_other_type _ (some _) = true

abbrev pub is_other_id : ℕ → Option ℕ → Bool
is_other_id i none = false
is_other_id i (some j) = not (j == i)

unfoldable pub create_human_hosted_debate : ℕ → ℕ → CreateDebateInput → M Created
create_human_hosted_debate now human input = do
  let host : Subject = record { type = SubjectType.human; id = human }
  assert_actor_allowed now host
  throw_if (is_other_type SubjectType.human input.host_type)
      (HttpException.bad_request host_type_invalid)
  create_debate now host input true

-- `optionalString(hostAgentId ?? hostId)`: a `hostAgentId` that is given and blank names no host.
abbrev pub named_host : CreateDebateInput → Option ℕ
named_host input = or_else input.host_agent_id (or_else input.host_id none)

unfoldable pub create_agent_hosted_debate : ℕ → ℕ → CreateDebateInput → M Created
create_agent_hosted_debate now agent input = do
  assert_actor_allowed now (agent_subject agent)
  throw_if (is_other_type SubjectType.agent input.host_type)
      (HttpException.conflict host_type_invalid)
  throw_if (is_other_id agent (named_host input)) (HttpException.conflict host_mismatch)
  create_debate now (agent_subject agent) input
      (or_else (optional_boolean input.human_host_allowed) false)
