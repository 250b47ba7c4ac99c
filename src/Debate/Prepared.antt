-- ===== src/Debate/Prepared.antt =====
-- What `prepareTurnSubmission` has checked when it lets a submission through.
use agentschat.Prelude.{
  ℕ, ◌≡◌, inl, inr, true, false, some, none, Option, arith, Option-cases, holds, ◌==◌, ◌&&◌,
}
use agentschat.Prelude.Table.{find_one}
use agentschat.Prelude.Rows.{find_one-holds}
use agentschat.Prelude.Action.{ok, Result-cases}
use agentschat.Text.{Unknown}
use agentschat.Domain.{is_live, is_turn_pending}
use agentschat.Debate.Store.{
  Db, DebateSessionEntity, DebateSeatEntity, DebateTurnEntity, session_by_id, load_seats, find_turn,
}
use agentschat.Debate.Turns.{is_filled, create_pending_turn}
use agentschat.Debate.Submit.{
  is_expired, TurnInput, PreparedTurnSubmission, normalize_turn_number,
  resolve_seat_for_turn_submission, current_or_new_turn, open_turn, prepare_turn_submission,
}
use agentschat.Debate.Lifecycle.Effects.{ensure_pending_turn-sessions}

pub normalize_turn_number-store :
    (v : Unknown) (n : ℕ) (db : Db) → (normalize_turn_number v n db).1 ≡ db
unfolding normalize_turn_number
normalize_turn_number-store v n db = ground arith

pub resolve_seat-store :
    (session agent : ℕ) (i : Option ℕ) (db : Db)
    → (resolve_seat_for_turn_submission session agent i db).1 ≡ db
unfolding resolve_seat_for_turn_submission
resolve_seat-store session agent i db = ground arith

pub current_or_new_turn-sessions :
    (now : ℕ) (d : DebateSessionEntity) (seat : DebateSeatEntity) (t : Option DebateTurnEntity)
    (db : Db)
    → (current_or_new_turn now d seat t db).1.sessions ≡ db.sessions
unfolding current_or_new_turn create_pending_turn
current_or_new_turn-sessions now d seat t db =
    ground (arith, ensure_pending_turn-sessions now d (load_seats d.id db) d.current_turn_number db)

open_turn-sessions :
    (now : ℕ) (d : DebateSessionEntity) (seat : DebateSeatEntity) (db : Db)
    → (open_turn now d seat db).1.sessions ≡ db.sessions
unfolding open_turn
open_turn-sessions now d seat db =
    ground
      (arith, current_or_new_turn-sessions now d seat (find_turn d.id d.current_turn_number db) db)

-- Preparing a submission leaves the sessions alone.
pub prepare_turn_submission-sessions :
    (now agent : ℕ) (input : TurnInput) (db : Db)
    → (prepare_turn_submission now agent input db).1.sessions ≡ db.sessions
unfolding prepare_turn_submission
prepare_turn_submission-sessions now agent input db =
    elim (Option-cases (find_one (session_by_id input.debate_session_id) db.sessions)) [
      | inl none_there ↦ ground arith
      | inr (d, e) ↦
          let n = normalize_turn_number-store input.turn_number d.current_turn_number db in
          let r = resolve_seat-store d.id agent input.seat_id db in
          elim (Result-cases (resolve_seat_for_turn_submission d.id agent input.seat_id db).0) [
            | inl (seat, h) ↦ ground (arith, open_turn-sessions now d seat db)
            | inr (x, h) ↦ ground arith
          ]
    ]

-- What holds of a submission that was let through: the session is live, the seat is filled by
-- the agent, and the turn is open, in time, and that seat's.
pub record IsPrepared (now agent : ℕ) (input : TurnInput) (db : Db) (p : PreparedTurnSubmission)
    : Type 0 where
  pub session_found :
      find_one (session_by_id input.debate_session_id) db.sessions ≡ some p.debate_session
  pub session_live : is_live p.debate_session.status ≡ true
  pub seat_filled : is_filled p.seat ≡ true
  pub by_occupant : holds p.seat.agent_id agent ≡ true
  pub turn_pending : is_turn_pending p.debate_turn.status ≡ true
  pub turn_unsubmitted : p.debate_turn.event_id ≡ none
  pub turn_in_time : is_expired now p.debate_turn ≡ false
  pub seats_turn : p.debate_turn.seat_id ≡ p.seat.id

resolve_seat-occupant :
    (session agent : ℕ) (i : Option ℕ) (db : Db) (seat : DebateSeatEntity)
    → (resolve_seat_for_turn_submission session agent i db).0 ≡ ok seat
    → holds seat.agent_id agent ≡ true
unfolding resolve_seat_for_turn_submission
resolve_seat-occupant session agent none db seat h = ground (
  arith,
  find_one-holds
      (λ (s : DebateSeatEntity). s.debate_session_id == session && holds s.agent_id agent) db.seats
      seat,
)
resolve_seat-occupant session agent (some i) db seat h = ground arith

-- What was checked before the turn is looked up.
pub prepare_turn_submission-seat :
    (now agent : ℕ) (input : TurnInput) (db : Db) (p : PreparedTurnSubmission)
    (d : DebateSessionEntity) (seat : DebateSeatEntity)
    → find_one (session_by_id input.debate_session_id) db.sessions ≡ some d
    → (resolve_seat_for_turn_submission d.id agent input.seat_id db).0 ≡ ok seat
    → (prepare_turn_submission now agent input db).0 ≡ ok p
    → (is_live d.status ≡ true) × (is_filled seat ≡ true) × ((open_turn now d seat db).0 ≡ ok p)
unfolding prepare_turn_submission
prepare_turn_submission-seat now agent input db p d seat e k h =
    let n = normalize_turn_number-store input.turn_number d.current_turn_number db in
    let r = resolve_seat-store d.id agent input.seat_id db in ground arith

pub prepare_turn_submission-resolved :
    (now agent : ℕ) (input : TurnInput) (db : Db) (p : PreparedTurnSubmission)
    (d : DebateSessionEntity)
    → find_one (session_by_id input.debate_session_id) db.sessions ≡ some d
    → (prepare_turn_submission now agent input db).0 ≡ ok p
    → (seat : DebateSeatEntity) × ((resolve_seat_for_turn_submission d.id agent input.seat_id db).0
        ≡ ok seat)
unfolding prepare_turn_submission
prepare_turn_submission-resolved now agent input db p d e h =
    let n = normalize_turn_number-store input.turn_number d.current_turn_number db in
    elim (Result-cases (resolve_seat_for_turn_submission d.id agent input.seat_id db).0) [
      | inl found ↦ found
      | inr (x, k) ↦ absurd (ground arith)
    ]

pub prepare_turn_submission-found :
    (now agent : ℕ) (input : TurnInput) (db : Db) (p : PreparedTurnSubmission)
    → (prepare_turn_submission now agent input db).0 ≡ ok p
    → (d : DebateSessionEntity) × (find_one (session_by_id input.debate_session_id) db.sessions
        ≡ some d)
unfolding prepare_turn_submission
prepare_turn_submission-found now agent input db p h =
    elim (Option-cases (find_one (session_by_id input.debate_session_id) db.sessions)) [
      | inl none_there ↦ absurd (ground arith)
      | inr found ↦ found
    ]

open_turn-ok :
    (now : ℕ) (d : DebateSessionEntity) (seat : DebateSeatEntity) (db : Db)
    (p : PreparedTurnSubmission)
    → (open_turn now d seat db).0 ≡ ok p
    → (p.debate_session ≡ d)
      × (p.seat ≡ seat)
      × (is_turn_pending p.debate_turn.status ≡ true)
      × (p.debate_turn.event_id ≡ none)
      × (is_expired now p.debate_turn ≡ false)
      × (p.debate_turn.seat_id ≡ p.seat.id)
unfolding open_turn
open_turn-ok now d seat db p h = ground arith

pub prepare_turn_submission-IsPrepared :
    (now agent : ℕ) (input : TurnInput) (db : Db) (p : PreparedTurnSubmission)
    → (prepare_turn_submission now agent input db).0 ≡ ok p
    → IsPrepared now agent input db p
prepare_turn_submission-IsPrepared now agent input db p h =
    let (d, e) = prepare_turn_submission-found now agent input db p h in
    let (seat, k) = prepare_turn_submission-resolved now agent input db p d e h in
    let (live, filled, opened) = prepare_turn_submission-seat now agent input db p d seat e k h in
    let (same_d, same_seat, pending, fresh, in_time, own) = open_turn-ok now d seat db p opened in
    record {
      session_found = rw same_d e;
      session_live = rw same_d live;
      seat_filled = rw same_seat filled;
      by_occupant = rw same_seat (resolve_seat-occupant d.id agent input.seat_id db seat k);
      turn_pending = pending;
      turn_unsubmitted = fresh;
      turn_in_time = in_time;
      seats_turn = own;
    }
