-- ===== src/Debate/Submit.antt =====
-- Submitting a turn: `prepareTurnSubmission` and `completeTurnSubmission`, and the transaction of
-- `submitDebateTurn` (content.service.ts) that runs them.
use agentschat.Prelude.{
  ℕ, zero, suc, ◌+◌, Bool, false, not, ◌&&◌, ◌||◌, List, [], ◌∷◌, Option, none, some, leb, ltb,
  ◌==◌, length, holds, is_some, if◌then◌else◌,
}
use agentschat.Prelude.Table.{find_one, find_by}
use agentschat.Prelude.Action.{pure, throw, gets, throw_if, or_throw, ◌>>=◌, ◌>>◌}
use agentschat.Text.{Unknown, codes, parse_int}
use agentschat.Domain.{
  SubjectType, Subject, DebateSessionStatus, DebateTurnStatus, ThreadParticipantRole, is_live,
  is_turn_pending,
}
use agentschat.Debate.Store.{
  M, HttpException, DebateSessionEntity, DebateSeatEntity, DebateTurnEntity, DebateEvent,
  find_session, update_session, update_turn, find_turn, load_seats, bind_actor, create_debate_event,
  create_system_debate_event, not_live, turn_number_invalid, not_current_turn, not_seated,
  not_seated_here, seat_not_found, seat_not_occupied, turn_not_accepting, turn_expired,
  not_seats_turn,
}
use agentschat.Debate.Turns.{
  is_filled, max_total_turn_count, get_opposite_seat, create_pending_turn, ensure_pending_turn,
  create_turn_assigned_event,
}
use agentschat.Debate.Ending.{Outcome, Finalize, seated_agents, finalize_debate_session}
use agentschat.Debate.Participants.{ensure_participant}

abbrev positive : Option ℕ → M ℕ
positive none = throw (HttpException.bad_request turn_number_invalid)
positive (some zero) = throw (HttpException.bad_request turn_number_invalid)
positive (some (suc n)) = pure (suc n)

unfoldable pub normalize_turn_number : Unknown → ℕ → M ℕ
normalize_turn_number Unknown.undefined fallback = pure fallback
normalize_turn_number Unknown.null fallback = pure fallback
normalize_turn_number Unknown.other_number fallback = positive none
normalize_turn_number Unknown.object fallback = positive none
normalize_turn_number (Unknown.boolean b) fallback = positive none
normalize_turn_number (Unknown.number n) fallback = positive (some n)
normalize_turn_number (Unknown.string []) fallback = pure fallback
normalize_turn_number (Unknown.string (c ∷ s)) fallback = positive (parse_int (c ∷ s))

unfoldable pub resolve_seat_for_turn_submission : ℕ → ℕ → Option ℕ → M DebateSeatEntity
resolve_seat_for_turn_submission session agent none = do
  found ←
      gets (λ db. find_one (λ s. s.debate_session_id == session && holds s.agent_id agent) db.seats)
  or_throw found (HttpException.forbidden not_seated)
resolve_seat_for_turn_submission session agent (some i) = do
  found ← gets (λ db. find_one (λ s. s.id == i && s.debate_session_id == session) db.seats)
  seat ← or_throw found (HttpException.not_found seat_not_found)
  throw_if (not (holds seat.agent_id agent)) (HttpException.forbidden not_seated_here)
  pure seat

-- `turn.deadlineAt && turn.deadlineAt <= now`
abbrev pub is_expired : ℕ → DebateTurnEntity → Bool
is_expired now t = elim t.deadline_at [ none ↦ false | some deadline ↦ leb deadline now ]

-- The turn that is submitted to, created where it does not exist yet.
unfoldable pub current_or_new_turn :
    ℕ → DebateSessionEntity → DebateSeatEntity → Option DebateTurnEntity → M DebateTurnEntity
current_or_new_turn now d seat (some t) = pure t
current_or_new_turn now d seat none = do
  seats ← gets (load_seats d.id)
  turns ← gets (λ db. find_by (λ t. t.debate_session_id == d.id) db.turns)
  if length turns == 0 && d.current_turn_number == 1 && length seats == 1
      then create_pending_turn now d seat d.current_turn_number
      else ensure_pending_turn now d seats d.current_turn_number

pub record TurnInput : Type 0 where
  pub debate_session_id : ℕ
  pub seat_id : Option ℕ
  pub turn_number : Unknown

pub record PreparedTurnSubmission : Type 0 where
  pub debate_session : DebateSessionEntity
  pub seat : DebateSeatEntity
  pub debate_turn : DebateTurnEntity

-- The open turn of the session, if it is this seat's and in time.
unfoldable pub open_turn : ℕ → DebateSessionEntity → DebateSeatEntity → M PreparedTurnSubmission
open_turn now d seat = do
  existing ← gets (find_turn d.id d.current_turn_number)
  turn ← current_or_new_turn now d seat existing
  throw_if (not (is_turn_pending turn.status) || is_some turn.event_id)
      (HttpException.conflict turn_not_accepting)
  throw_if (is_expired now turn) (HttpException.conflict turn_expired)
  throw_if (not (turn.seat_id == seat.id)) (HttpException.conflict not_seats_turn)
  pure (record { debate_session = d; seat = seat; debate_turn = turn })

unfoldable pub prepare_turn_submission : ℕ → ℕ → TurnInput → M PreparedTurnSubmission
unfolding find_session
prepare_turn_submission now agent input = do
  d ← find_session input.debate_session_id
  throw_if (not (is_live d.status)) (HttpException.conflict not_live)
  requested ← normalize_turn_number input.turn_number d.current_turn_number
  throw_if (not (requested == d.current_turn_number)) (HttpException.conflict not_current_turn)
  seat ← resolve_seat_for_turn_submission d.id agent input.seat_id
  throw_if (not (is_filled seat)) (HttpException.conflict seat_not_occupied)
  open_turn now d seat

-- The ids of the events that follow the submission, and of the agents to look at again.
abbrev pub Followed : Type 0
Followed = List ℕ × List ℕ

abbrev pub completed : ℕ → ℕ → ℕ → DebateSeatEntity → DebateTurnEntity → DebateTurnEntity
completed now event agent seat t = record t {
  event_id = some event;
  status = DebateTurnStatus.completed;
  submitted_at = some now;
  metadata = record (t.metadata) { seat_id = some seat.id; submitted_by_agent_id = some agent };
}

abbrev pub at_turn_limit : ℕ → Finalize
at_turn_limit n = record {
  actor = none;
  reason = some (codes "turn_limit_reached");
  final_turn_number = some n;
  current_turn_number = some n;
}

-- The next seat has nobody: the debate pauses at the next turn.
unfoldable pub await_replacement :
    ℕ → DebateSessionEntity → DebateSeatEntity → ℕ → List ℕ → M Followed
unfolding update_session create_system_debate_event
await_replacement now d next n touched = do
  update_session d.id
      (λ s. record s { status = DebateSessionStatus.paused; current_turn_number = n })
  needed ←
      create_system_debate_event now d
        (DebateEvent.replacement_needed next.id next.stance d.free_entry n)
  paused ←
      create_system_debate_event now d
        (DebateEvent.paused (codes "replacement_needed") next.id next.stance n)
  pure (needed ∷ paused ∷ [], touched)

-- The next seat gets the next turn.
unfoldable pub pass_turn :
    ℕ → DebateSessionEntity → List DebateSeatEntity → DebateSeatEntity → ℕ → List ℕ → M Followed
unfolding update_session create_turn_assigned_event
pass_turn now d seats next n touched = do
  turn ← create_pending_turn now d next n
  update_session d.id (λ s. record s { current_turn_number = turn.turn_number })
  assigned ← create_turn_assigned_event now d turn seats
  pure (assigned ∷ [], touched)

abbrev advance : DebateSessionEntity → ℕ → List ℕ → M Followed
advance d n touched = do
  update_session d.id (λ s. record s { current_turn_number = n })
  pure ([], touched)

unfoldable pub next_turn : ℕ → PreparedTurnSubmission → List DebateSeatEntity → M Followed
unfolding update_session
next_turn now p seats = do
  let d = p.debate_session
  let n = p.debate_turn.turn_number + 1
  if ltb (length seats) 2 then advance d n (seated_agents seats) else do
    next ← get_opposite_seat seats p.seat.id
    if not (is_filled next)
        then await_replacement now d next n (seated_agents seats)
        else pass_turn now d seats next n (seated_agents seats)

abbrev followed : Outcome → M Followed
followed o = pure (o.follow_up_event_ids, o.touched_agent_ids)

unfoldable pub complete_turn_submission : ℕ → PreparedTurnSubmission → ℕ → ℕ → M Followed
unfolding update_turn
complete_turn_submission now p agent event = do
  seats ← gets (load_seats p.debate_session.id)
  update_turn p.debate_turn.id (completed now event agent p.seat)
  if leb max_total_turn_count p.debate_turn.turn_number
      then finalize_debate_session now p.debate_session (at_turn_limit p.debate_turn.turn_number)
        >>= followed
      else next_turn now p seats

-- What `submitDebateTurn` returns: the event, the turn, and what follows.
abbrev pub Submitted : Type 0
Submitted = ℕ × ℕ × Followed

abbrev pub agent_subject : ℕ → Subject
agent_subject a = record { type = SubjectType.agent; id = a }

-- The transaction of `submitDebateTurn`.
unfoldable pub submit_transaction : ℕ → ℕ → TurnInput → M Submitted
unfolding create_debate_event
submit_transaction now agent input = do
  p ← prepare_turn_submission now agent input
  ensure_participant p.debate_session.thread_id (agent_subject agent) ThreadParticipantRole.member
  event ←
      create_debate_event now p.debate_session (bind_actor (agent_subject agent))
        (DebateEvent.turn_submit p.seat.id p.debate_turn.turn_number)
  rest ← complete_turn_submission now p agent event
  pure (event, p.debate_turn.id, rest)
