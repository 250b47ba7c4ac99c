-- ===== src/Debate/Stored.antt =====
-- The turn that a preparation hands out is the one that is stored.
use agentschat.Prelude.{ℕ, ◌≡◌, refl, inl, inr, some, none, Option, arith, subst, sym}
use agentschat.Prelude.Table.{find_one}
use agentschat.Prelude.Rows.{find_one-insert_row}
use agentschat.Prelude.Action.{ok, Result-cases}
use agentschat.Debate.Store.{
  Db, DebateSessionEntity, DebateSeatEntity, DebateTurnEntity, session_by_id, load_seats, find_turn,
  turn_by_number,
}
use agentschat.Debate.Prepared.{
  prepare_turn_submission-found, prepare_turn_submission-resolved, prepare_turn_submission-seat,
  normalize_turn_number-store, resolve_seat-store,
}
use agentschat.Debate.Turns.{ensure_pending_turn, pending_turn, create_pending_turn}
use agentschat.Debate.Submit.{
  TurnInput, PreparedTurnSubmission, prepare_turn_submission, current_or_new_turn, open_turn,
  resolve_seat_for_turn_submission,
}
use agentschat.Debate.OpenTurn.{ensure_pending_turn-IsEnsured}

create_pending_turn-stored :
    (now : ℕ) (d : DebateSessionEntity) (seat : DebateSeatEntity) (n : ℕ) (db : Db)
    (t : DebateTurnEntity)
    → find_turn d.id n db ≡ none
    → (create_pending_turn now d seat n db).0 ≡ ok t
    → find_turn d.id n (create_pending_turn now d seat n db).1 ≡ some t
unfolding create_pending_turn find_turn
create_pending_turn-stored now d seat n db t e h = ground (
  arith,
  find_one-insert_row (turn_by_number d.id n) db.turns (pending_turn now db.next_id d seat n),
)

-- The turn that is submitted to is the session's current turn, found or made.
current_or_new_turn-stored :
    (now : ℕ) (d : DebateSessionEntity) (seat : DebateSeatEntity) (x : Option DebateTurnEntity)
    (db : Db) (t : DebateTurnEntity)
    → find_turn d.id d.current_turn_number db ≡ x
    → (current_or_new_turn now d seat x db).0 ≡ ok t
    → find_turn d.id d.current_turn_number (current_or_new_turn now d seat x db).1 ≡ some t
unfolding current_or_new_turn
current_or_new_turn-stored now d seat (some old) db t e h = ground arith
current_or_new_turn-stored now d seat none db t e h = ground (
  arith,
  create_pending_turn-stored now d seat d.current_turn_number db t e,
  λ (made : (ensure_pending_turn now d (load_seats d.id db) d.current_turn_number db).0 ≡ ok t).
      (ensure_pending_turn-IsEnsured now d (load_seats d.id db) d.current_turn_number db t
        made).stored,
)

open_turn-stored :
    (now : ℕ) (d : DebateSessionEntity) (seat : DebateSeatEntity) (db : Db)
    (p : PreparedTurnSubmission)
    → (open_turn now d seat db).0 ≡ ok p
    → (p.debate_session ≡ d)
      × (find_turn d.id d.current_turn_number (open_turn now d seat db).1 ≡ some p.debate_turn)
unfolding open_turn
open_turn-stored now d seat db p h =
    let x = find_turn d.id d.current_turn_number db in
    elim (Result-cases (current_or_new_turn now d seat x db).0) [
      | inl (t, made) ↦ ground (arith, current_or_new_turn-stored now d seat x db t refl made)
      | inr (e, failed) ↦ absurd (ground arith)
    ]

-- What a preparation writes, its opened turn wrote.
prepare_turn_submission-opened :
    (now agent : ℕ) (input : TurnInput) (db : Db) (p : PreparedTurnSubmission)
    (d : DebateSessionEntity) (seat : DebateSeatEntity)
    → find_one (session_by_id input.debate_session_id) db.sessions ≡ some d
    → (resolve_seat_for_turn_submission d.id agent input.seat_id db).0 ≡ ok seat
    → (prepare_turn_submission now agent input db).0 ≡ ok p
    → (prepare_turn_submission now agent input db).1 ≡ (open_turn now d seat db).1
unfolding prepare_turn_submission
prepare_turn_submission-opened now agent input db p d seat e k h =
    let n = normalize_turn_number-store input.turn_number d.current_turn_number db in
    let r = resolve_seat-store d.id agent input.seat_id db in ground arith

pub prepare_turn_submission-stored :
    (now agent : ℕ) (input : TurnInput) (db : Db) (p : PreparedTurnSubmission)
    → (prepare_turn_submission now agent input db).0 ≡ ok p
    → find_turn p.debate_session.id p.debate_session.current_turn_number
        (prepare_turn_submission now agent input db).1
      ≡ some p.debate_turn
prepare_turn_submission-stored now agent input db p h =
    let (d, e) = prepare_turn_submission-found now agent input db p h in
    let (seat, k) = prepare_turn_submission-resolved now agent input db p d e h in
    let (live, filled, opened) = prepare_turn_submission-seat now agent input db p d seat e k h in
    let (same, there) = open_turn-stored now d seat db p opened in
    let wrote = prepare_turn_submission-opened now agent input db p d seat e k h in
    subst
      (λ x.
        find_turn p.debate_session.id p.debate_session.current_turn_number x ≡ some p.debate_turn)
      (sym wrote)
      (subst
        (λ s. find_turn s.id s.current_turn_number (open_turn now d seat db).1 ≡ some p.debate_turn)
        (sym same) there)
