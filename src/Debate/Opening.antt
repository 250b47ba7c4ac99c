-- ===== src/Debate/Opening.antt =====
-- The turn that is open after a start and after a resume.
use agentschat.Prelude.{ℕ, ◌≡◌, inl, inr, true, some, arith, ◌∙◌}
use agentschat.Prelude.Table.{find_one}
use agentschat.Prelude.Action.{ok, Result-cases}
use agentschat.Domain.{Subject}
use agentschat.Debate.Store.{
  Db, DebateSessionEntity, DebateSeatEntity, DebateTurnEntity, session_by_id, load_seats, find_turn,
}
use agentschat.Debate.Turns.{is_filled, determine_expected_seat, ensure_pending_turn}
use agentschat.Debate.Host.{start_transaction, resume_transaction}
use agentschat.Debate.Ending.{Outcome}
use agentschat.Debate.OpenTurn.{IsOpen, ensure_pending_turn-IsEnsured}

-- The session is live at the turn, and the turn is open and goes to the seat that is expected.
pub record IsRunning (now : ℕ) (d : DebateSessionEntity) (before after : Db) (n : ℕ) : Type 0 where
  pub turn : DebateTurnEntity
  pub stored : find_turn d.id n after ≡ some turn
  pub opened : IsOpen now d.id n turn
  pub seat : DebateSeatEntity
  pub expected : (determine_expected_seat d.id (load_seats d.id before) n before).0 ≡ ok seat
  pub filled : is_filled seat ≡ true
  pub to_seat : turn.seat_id ≡ seat.id

module _ (now : ℕ) (actor : Subject) (i : ℕ) (db : Db) (d : DebateSessionEntity) (o : Outcome)
    (found : find_one (session_by_id i) db.sessions ≡ some d) where
  start_transaction-ensured :
      (start_transaction now actor i db).0 ≡ ok o
      → (t : DebateTurnEntity) × ((ensure_pending_turn now d
            (load_seats d.id db)
            d.current_turn_number
            db).0
          ≡ ok t)
  unfolding start_transaction
  start_transaction-ensured h =
      elim (Result-cases
        (ensure_pending_turn now d (load_seats d.id db) d.current_turn_number db).0) [
          | inl made ↦ made
          | inr (x, e) ↦ absurd (ground arith)
        ]

  start_transaction-turns :
      (t : DebateTurnEntity)
      → (ensure_pending_turn now d (load_seats d.id db) d.current_turn_number db).0 ≡ ok t
      → (start_transaction now actor i db).0 ≡ ok o
      → (o.current_turn_number ≡ t.turn_number)
        × (find_turn d.id d.current_turn_number (start_transaction now actor i db).1
            ≡ find_turn d.id d.current_turn_number
                (ensure_pending_turn now d (load_seats d.id db) d.current_turn_number db).1)
  unfolding start_transaction find_turn
  start_transaction-turns t e h = ground arith

  resume_transaction-ensured :
      (resume_transaction now actor i db).0 ≡ ok o
      → (t : DebateTurnEntity) × ((ensure_pending_turn now d
            (load_seats d.id db)
            d.current_turn_number
            db).0
          ≡ ok t)
  unfolding resume_transaction
  resume_transaction-ensured h =
      elim (Result-cases
        (ensure_pending_turn now d (load_seats d.id db) d.current_turn_number db).0) [
          | inl made ↦ made
          | inr (x, e) ↦ absurd (ground arith)
        ]

  resume_transaction-turns :
      (t : DebateTurnEntity)
      → (ensure_pending_turn now d (load_seats d.id db) d.current_turn_number db).0 ≡ ok t
      → (resume_transaction now actor i db).0 ≡ ok o
      → (o.current_turn_number ≡ t.turn_number)
        × (find_turn d.id d.current_turn_number (resume_transaction now actor i db).1
            ≡ find_turn d.id d.current_turn_number
                (ensure_pending_turn now d (load_seats d.id db) d.current_turn_number db).1)
  unfolding resume_transaction find_turn
  resume_transaction-turns t e h = ground arith

  -- A start that is accepted opens the debate's current turn: the turn is stored, pending and
  -- unsubmitted, with 200 seconds from now, and belongs to the expected seat, which is filled.
  pub start_transaction-IsRunning :
      (start_transaction now actor i db).0 ≡ ok o
      → IsRunning now d db (start_transaction now actor i db).1 o.current_turn_number
  start_transaction-IsRunning h =
      let (t, made) = start_transaction-ensured h in
      let (number, same) = start_transaction-turns t made h in
      let ensured =
        ensure_pending_turn-IsEnsured now d (load_seats d.id db) d.current_turn_number db t made in
      let at_turn : o.current_turn_number ≡ d.current_turn_number =
        number ∙ ensured.opened.number_is in
      rw at_turn record {
        turn = t;
        stored = same ∙ ensured.stored;
        opened = ensured.opened;
        seat = ensured.seat;
        expected = ensured.expected;
        filled = ensured.filled;
        to_seat = ensured.to_seat;
      }

  -- A resumption that is accepted opens the debate's current turn in the same way: stored, pending
  -- and unsubmitted, with 200 seconds from now, and belonging to the expected seat, which is filled.
  resume_transaction-IsRunning :
      (resume_transaction now actor i db).0 ≡ ok o
      → IsRunning now d db (resume_transaction now actor i db).1 o.current_turn_number
  resume_transaction-IsRunning h =
      let (t, made) = resume_transaction-ensured h in
      let (number, same) = resume_transaction-turns t made h in
      let ensured =
        ensure_pending_turn-IsEnsured now d (load_seats d.id db) d.current_turn_number db t made in
      let at_turn : o.current_turn_number ≡ d.current_turn_number =
        number ∙ ensured.opened.number_is in
      rw at_turn record {
        turn = t;
        stored = same ∙ ensured.stored;
        opened = ensured.opened;
        seat = ensured.seat;
        expected = ensured.expected;
        filled = ensured.filled;
        to_seat = ensured.to_seat;
      }
