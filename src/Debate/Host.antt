-- ===== src/Debate/Host.antt =====
-- What the host does: `startDebate`, `pauseDebate`, `resumeDebate` and `endDebate`.
use agentschat.Prelude.{
  ℕ, Bool, false, not, ◌&&◌, ◌||◌, [], ◌∷◌, Option, none, some, ◌==◌, length, holds, or_else,
  if◌then◌else◌,
}
use agentschat.Prelude.Table.{exists}
use agentschat.Prelude.Action.{pure, gets, throw_if, in_transaction, ◌>>=◌, ◌>>◌}
use agentschat.Text.{codes, Unknown, optional_string}
use agentschat.Domain.{
  SubjectType, Subject, same_type, DebateSessionStatus, is_pending, is_live, is_paused,
}
use agentschat.Debate.Store.{
  M, HttpException, DebateSessionEntity, DebateSeatEntity, DebateEvent, find_session,
  update_session, find_seat, load_seats, bind_actor, create_debate_event, not_host, not_pending,
  not_live, not_paused, not_endable, two_occupied_seats, replacement_must_occupy,
}
use agentschat.Debate.Turns.{is_filled, ensure_pending_turn, create_turn_assigned_event}
use agentschat.Debate.Ending.{
  Outcome, Finalize, seated_agents, collect_session_agent_ids, finalize_debate_session,
}
use agentschat.Debate.Presence.{process_event_ids, sync_agent_statuses}
use agentschat.Debate.Sweep.{sweep_debate_session}
use agentschat.Moderation.Actor.{assert_actor_allowed}

abbrev expected_host_id : DebateSessionEntity → Option ℕ
expected_host_id d = elim d.host_type [
  | SubjectType.human ↦ d.host_user_id
  | SubjectType.agent ↦ d.host_agent_id
]

-- The test of `assertHostActor`.
unfoldable pub is_host : DebateSessionEntity → Subject → Bool
is_host d actor = same_type d.host_type actor.type && holds (expected_host_id d) actor.id

unfoldable pub assert_host_actor : DebateSessionEntity → Subject → M (Unit {0})
unfolding is_host
assert_host_actor d actor = throw_if (not (is_host d actor)) (HttpException.forbidden not_host)

-- `startedAt: debateSession.startedAt ?? new Date()`
abbrev pub started : ℕ → ℕ → DebateSessionEntity → DebateSessionEntity → DebateSessionEntity
started now number d s = record s {
  status = DebateSessionStatus.live;
  current_turn_number = number;
  started_at = some (or_else d.started_at now);
}

unfoldable pub start_transaction : ℕ → Subject → ℕ → M Outcome
unfolding find_session assert_host_actor update_session create_debate_event
    create_turn_assigned_event
start_transaction now actor i = do
  d ← find_session i
  assert_host_actor d actor
  throw_if (not (is_pending d.status)) (HttpException.conflict not_pending)
  seats ← gets (load_seats d.id)
  throw_if (not (length seats == 2) || exists (λ s. not (is_filled s)) seats)
      (HttpException.conflict two_occupied_seats)
  turn ← ensure_pending_turn now d seats d.current_turn_number
  update_session d.id (started now turn.turn_number d)
  event ← create_debate_event now d (bind_actor actor) (DebateEvent.started turn.turn_number)
  assigned ← create_turn_assigned_event now d turn seats
  pure (record {
    debate_session_id = d.id;
    thread_id = d.thread_id;
    status = DebateSessionStatus.live;
    current_turn_number = turn.turn_number;
    event_id = event;
    follow_up_event_ids = assigned ∷ [];
    touched_agent_ids = seated_agents seats;
  })

-- What follows the commit of an operation on a session.
unfoldable pub publish : Outcome → M Outcome
publish o = do
  process_event_ids (o.event_id ∷ o.follow_up_event_ids)
  sync_agent_statuses o.touched_agent_ids
  pure o

unfoldable pub start_debate : ℕ → Subject → ℕ → M Outcome
start_debate now actor i = do
  assert_actor_allowed now actor
  o ← in_transaction (start_transaction now actor i)
  publish o

unfoldable pub pause_transaction : ℕ → Subject → ℕ → Unknown → M Outcome
unfolding find_session assert_host_actor update_session create_debate_event
pause_transaction now actor i reason = do
  d ← find_session i
  assert_host_actor d actor
  throw_if (not (is_live d.status)) (HttpException.conflict not_live)
  update_session d.id (λ s. record s { status = DebateSessionStatus.paused })
  event ← create_debate_event now d (bind_actor actor) (
      DebateEvent.host_paused (or_else (optional_string reason) (codes "host_pause"))
        d.current_turn_number)
  touched ← gets (collect_session_agent_ids d.id)
  pure (record {
    debate_session_id = d.id;
    thread_id = d.thread_id;
    status = DebateSessionStatus.paused;
    current_turn_number = d.current_turn_number;
    event_id = event;
    follow_up_event_ids = [];
    touched_agent_ids = touched;
  })

unfoldable pub pause_debate : ℕ → Subject → ℕ → Unknown → M Outcome
pause_debate now actor i reason = do
  assert_actor_allowed now actor
  sweep_debate_session now i
  o ← in_transaction (pause_transaction now actor i reason)
  publish o

abbrev pub resumed : ℕ → DebateSessionEntity → DebateSessionEntity
resumed number s = record s { status = DebateSessionStatus.live; current_turn_number = number }

abbrev is_seat_filled : Option DebateSeatEntity → Bool
is_seat_filled none = false
is_seat_filled (some s) = is_filled s

unfoldable pub resume_transaction : ℕ → Subject → ℕ → M Outcome
unfolding find_session assert_host_actor update_session create_debate_event
    create_turn_assigned_event
resume_transaction now actor i = do
  d ← find_session i
  assert_host_actor d actor
  throw_if (not (is_paused d.status)) (HttpException.conflict not_paused)
  seats ← gets (load_seats d.id)
  turn ← ensure_pending_turn now d seats d.current_turn_number
  throw_if (not (is_seat_filled (find_seat turn.seat_id seats)))
      (HttpException.conflict replacement_must_occupy)
  update_session d.id (resumed turn.turn_number)
  event ← create_debate_event now d (bind_actor actor) (DebateEvent.resumed turn.turn_number)
  assigned ← create_turn_assigned_event now d turn seats
  pure (record {
    debate_session_id = d.id;
    thread_id = d.thread_id;
    status = DebateSessionStatus.live;
    current_turn_number = turn.turn_number;
    event_id = event;
    follow_up_event_ids = assigned ∷ [];
    touched_agent_ids = seated_agents seats;
  })

unfoldable pub resume_debate : ℕ → Subject → ℕ → M Outcome
resume_debate now actor i = do
  assert_actor_allowed now actor
  sweep_debate_session now i
  o ← in_transaction (resume_transaction now actor i)
  publish o

-- A debate that never started ends with final turn 0 and a reason.
abbrev pub host_ending : Subject → DebateSessionEntity → Finalize
host_ending actor d = record {
  actor = some actor;
  reason = if is_pending d.status then some (codes "host_cancelled_before_start") else none;
  final_turn_number = some (if is_pending d.status then 0 else d.current_turn_number);
  current_turn_number = none;
}

unfoldable pub end_transaction : ℕ → Subject → ℕ → M Outcome
unfolding find_session assert_host_actor
end_transaction now actor i = do
  d ← find_session i
  assert_host_actor d actor
  throw_if (not (is_pending d.status || is_live d.status || is_paused d.status))
      (HttpException.conflict not_endable)
  finalize_debate_session now d (host_ending actor d)

unfoldable pub end_debate : ℕ → Subject → ℕ → M Outcome
end_debate now actor i = do
  assert_actor_allowed now actor
  sweep_debate_session now i
  o ← in_transaction (end_transaction now actor i)
  publish o
