-- ===== src/Debate/Turns.antt =====
-- Whose turn it is, and the pending turn that the seat gets: `determineExpectedSeat`,
-- `getOppositeSeat`, `createPendingTurn`, `ensurePendingTurn` and `createTurnAssignedEvent`.
use agentschat.Prelude.{
  ℕ, suc, ◌+◌, ◌-◌, ◌*◌, Bool, not, ◌&&◌, ◌||◌, List, Option, none, some, leb, ◌==◌, length,
  is_some, if◌then◌else◌,
}
use agentschat.Prelude.Table.{find_one, insert_row}
use agentschat.Prelude.Action.{pure, throw_if, or_throw, gets, ◌>>=◌, ◌>>◌, ok}
use agentschat.Domain.{DebateTurnStatus, is_occupied, is_missed, is_turn_pending}
use agentschat.Debate.Store.{
  M, HttpException, DebateSessionEntity, DebateSeatEntity, DebateTurnEntity, TurnMetadata,
  DebateEvent, seat_must_be_occupied, turn_closed, two_canonical_seats, opening_seat_unresolved,
  previous_seat_unresolved, requires_two_seats, assigned_seat_unresolved, update_turn, find_turn,
  find_seat, create_system_debate_event,
}

-- 200_000 ms
abbrev pub default_turn_deadline_ms : ℕ
default_turn_deadline_ms = 200000

-- 24 * 60 * 60 * 1000 ms
abbrev pub default_debate_duration_ms : ℕ
default_debate_duration_ms = 86400000

abbrev pub default_turns_per_side_limit : ℕ
default_turns_per_side_limit = 200

abbrev pub max_total_turn_count : ℕ
max_total_turn_count = default_turns_per_side_limit * 2

abbrev pub build_turn_deadline : ℕ → ℕ
build_turn_deadline now = now + default_turn_deadline_ms

-- `seat.status === Occupied && seat.agentId`
abbrev pub is_filled : DebateSeatEntity → Bool
is_filled s = is_occupied s.status && is_some s.agent_id

unfoldable pub get_opposite_seat : List DebateSeatEntity → ℕ → M DebateSeatEntity
get_opposite_seat seats i =
    or_throw (find_one (λ s. not (s.id == i)) seats) (HttpException.conflict requires_two_seats)

abbrev opening_seat : List DebateSeatEntity → M DebateSeatEntity
opening_seat seats =
    or_throw (find_one (λ s. s.seat_order == 1) seats)
      (HttpException.conflict opening_seat_unresolved)

-- The seat that follows a turn: the same one after a missed turn, else the other.
unfoldable pub seat_after : List DebateSeatEntity → Option DebateTurnEntity → M DebateSeatEntity
unfolding get_opposite_seat find_seat
seat_after seats none = opening_seat seats
seat_after seats (some previous) = do
  seat ←
      or_throw (find_seat previous.seat_id seats) (HttpException.conflict previous_seat_unresolved)
  if is_missed previous.status then pure seat else get_opposite_seat seats seat.id

unfoldable pub determine_expected_seat : ℕ → List DebateSeatEntity → ℕ → M DebateSeatEntity
unfolding seat_after
determine_expected_seat session seats n = do
  throw_if (not (length seats == 2)) (HttpException.conflict two_canonical_seats)
  if leb n 1
      then opening_seat seats
      else do previous ← gets (find_turn session (n - 1)); seat_after seats previous

abbrev pub empty_metadata : TurnMetadata
empty_metadata = record {
  stance = none;
  assigned_agent_id = none;
  missed_at = none;
  missed_seat_id = none;
  seat_id = none;
  submitted_by_agent_id = none;
  ended_at = none;
  ended_reason = none;
}

abbrev pub pending_turn : ℕ → ℕ → DebateSessionEntity → DebateSeatEntity → ℕ → DebateTurnEntity
pending_turn now id d seat n = record {
  id = id;
  debate_session_id = d.id;
  seat_id = seat.id;
  turn_number = n;
  status = DebateTurnStatus.pending;
  event_id = none;
  deadline_at = some (build_turn_deadline now);
  submitted_at = none;
  metadata = record empty_metadata { stance = some seat.stance; assigned_agent_id = seat.agent_id };
}

abbrev save_turn : (ℕ → DebateTurnEntity) → M DebateTurnEntity
save_turn row db = (
  ok (row db.next_id),
  record db { turns = insert_row db.turns (row db.next_id); next_id = suc db.next_id },
)

unfoldable pub create_pending_turn :
    ℕ → DebateSessionEntity → DebateSeatEntity → ℕ → M DebateTurnEntity
create_pending_turn now d seat n = do
  throw_if (not (is_filled seat)) (HttpException.conflict seat_must_be_occupied)
  save_turn (λ id. pending_turn now id d seat n)

-- The assignment of an open turn to the seat that is expected, with a new deadline.
abbrev pub reassigned : ℕ → DebateSeatEntity → DebateTurnEntity → DebateTurnEntity
reassigned now seat t = record t {
  seat_id = seat.id;
  deadline_at = some (build_turn_deadline now);
  metadata = record (t.metadata) { stance = some seat.stance; assigned_agent_id = seat.agent_id };
}

unfoldable pub reopen_turn :
    ℕ → DebateSessionEntity → DebateSeatEntity → ℕ → Option DebateTurnEntity → M DebateTurnEntity
unfolding create_pending_turn update_turn
reopen_turn now d seat n none = create_pending_turn now d seat n
reopen_turn now d seat n (some t) = do
  throw_if (not (is_turn_pending t.status) || is_some t.event_id)
      (HttpException.conflict turn_closed)
  update_turn t.id (reassigned now seat)
  pure (reassigned now seat t)

unfoldable pub ensure_pending_turn :
    ℕ → DebateSessionEntity → List DebateSeatEntity → ℕ → M DebateTurnEntity
unfolding determine_expected_seat reopen_turn
ensure_pending_turn now d seats n = do
  seat ← determine_expected_seat d.id seats n
  throw_if (not (is_filled seat)) (HttpException.conflict seat_must_be_occupied)
  existing ← gets (find_turn d.id n)
  reopen_turn now d seat n existing

unfoldable pub create_turn_assigned_event :
    ℕ → DebateSessionEntity → DebateTurnEntity → List DebateSeatEntity → M ℕ
unfolding create_system_debate_event
create_turn_assigned_event now d t seats = do
  seat ← or_throw (find_seat t.seat_id seats) (HttpException.conflict assigned_seat_unresolved)
  create_system_debate_event now d
      (DebateEvent.turn_assigned seat.id seat.stance seat.agent_id t.turn_number t.deadline_at)
