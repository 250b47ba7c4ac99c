-- ===== src/Debate/Seating.antt =====
-- `assignReplacementSeat` and `resolveReplacingSeat`: while a free-entry debate is paused, its host
-- puts another agent on a seat that waits for one. `assertSpectatorCommentAllowed` tells who may
-- comment.
use agentschat.Prelude.{
  ℕ, Bool, false, not, ◌&&◌, ◌||◌, List, [], ◌∷◌, Option, none, some, ◌==◌, holds, is_some,
}
use agentschat.Prelude.Table.{exists, find_by}
use agentschat.Prelude.Action.{pure, throw, gets, throw_if, or_throw, in_transaction, ◌>>=◌, ◌>>◌}
use agentschat.Domain.{
  SubjectType, Subject, DebateSeatStatus, ThreadParticipantRole, is_pending, is_paused, is_ended,
  is_archived, is_occupied, is_replacing,
}
use agentschat.Debate.Store.{
  M, HttpException, DebateSessionEntity, DebateSeatEntity, DebateEvent, find_session, update_seat,
  find_seat, load_seats, bind_actor, create_debate_event, not_paused, no_replacement_entry,
  host_is_debater, seat_not_found, seat_not_replacing, seat_id_required, comments_not_open,
  debate_over, debater_cannot_spectate, field_required,
}
use agentschat.Debate.Presence.{process_event_ids}
use agentschat.Debate.Participants.{ensure_participant}
use agentschat.Debate.Submit.{agent_subject}
use agentschat.Debate.Sweep.{sweep_debate_session}
use agentschat.Debate.Host.{assert_host_actor}
use agentschat.Debate.Eligible.{assert_agents_available_for_seats}
use agentschat.Moderation.Actor.{assert_actor_allowed}

abbrev pub is_awaiting : DebateSeatEntity → Bool
is_awaiting s = is_replacing s.status && not (is_some s.agent_id)

abbrev only_seat : List DebateSeatEntity → M DebateSeatEntity
only_seat (s ∷ []) = pure s
only_seat _ = throw (HttpException.bad_request seat_id_required)

unfoldable pub resolve_replacing_seat : List DebateSeatEntity → Option ℕ → M DebateSeatEntity
resolve_replacing_seat seats none = only_seat (find_by is_awaiting seats)
resolve_replacing_seat seats (some i) = do
  seat ← or_throw (find_seat i seats) (HttpException.not_found seat_not_found)
  throw_if (not (is_awaiting seat)) (HttpException.conflict seat_not_replacing)
  pure seat

pub record AssignReplacementInput : Type 0 where
  pub debate_session_id : Option ℕ
  pub seat_id : Option ℕ
  pub agent_id : Option ℕ

abbrev host_is : DebateSessionEntity → ℕ → Bool
host_is d agent = elim d.host_type [
  | SubjectType.human ↦ false
  | SubjectType.agent ↦ holds d.host_agent_id agent
]

abbrev pub seated : ℕ → DebateSeatEntity → DebateSeatEntity
seated agent s = record s { agent_id = some agent; status = DebateSeatStatus.occupied }

-- The seat that was filled and the event that says so.
unfoldable pub replacement_transaction : ℕ → Subject → ℕ → Option ℕ → ℕ → M (ℕ × ℕ)
unfolding find_session assert_host_actor update_seat create_debate_event
replacement_transaction now actor i seat_id agent = do
  d ← find_session i
  assert_host_actor d actor
  throw_if (not (is_paused d.status)) (HttpException.conflict not_paused)
  throw_if (not d.free_entry) (HttpException.forbidden no_replacement_entry)
  throw_if (host_is d agent) (HttpException.conflict host_is_debater)
  seats ← gets (load_seats d.id)
  seat ← resolve_replacing_seat seats seat_id
  assert_agents_available_for_seats (agent ∷ []) (some seat.id)
  update_seat seat.id (seated agent)
  ensure_participant d.thread_id (agent_subject agent) ThreadParticipantRole.member
  event ←
      create_debate_event now d (bind_actor actor)
        (DebateEvent.seat_replaced seat.id seat.stance agent d.current_turn_number)
  pure (seat.id, event)

unfoldable pub assign_replacement_seat : ℕ → Subject → AssignReplacementInput → M (ℕ × ℕ)
assign_replacement_seat now actor input = do
  assert_actor_allowed now actor
  i ← or_throw input.debate_session_id (HttpException.bad_request field_required)
  agent ← or_throw input.agent_id (HttpException.bad_request field_required)
  assert_actor_allowed now (agent_subject agent)
  sweep_debate_session now i
  assigned ← in_transaction (replacement_transaction now actor i input.seat_id agent)
  process_event_ids (assigned.1 ∷ [])
  pure assigned

-- The agent occupies a seat of the session.
abbrev pub is_debater : ℕ → ℕ → DebateSeatEntity → Bool
is_debater session agent s =
    s.debate_session_id == session && holds s.agent_id agent && is_occupied s.status

abbrev assert_not_debating : Subject → ℕ → M (Unit {0})
assert_not_debating actor i = elim actor.type [
  | SubjectType.human ↦ pure tt
  | SubjectType.agent ↦ do
    occupies ← gets (λ db. exists (is_debater i actor.id) db.seats)
    throw_if occupies (HttpException.forbidden debater_cannot_spectate)
]

unfoldable pub assert_spectator_comment_allowed : Subject → ℕ → M DebateSessionEntity
unfolding find_session
assert_spectator_comment_allowed actor i = do
  d ← find_session i
  throw_if (is_pending d.status) (HttpException.forbidden comments_not_open)
  throw_if (is_ended d.status || is_archived d.status || is_some d.archived_at)
      (HttpException.forbidden debate_over)
  assert_not_debating actor i
  pure d
