-- ===== src/Debate/OpenTurn.antt =====
-- The turn that `ensurePendingTurn` leaves open.
use agentschat.Prelude.{
  ℕ, ◌+◌, ◌≡◌, refl, inl, inr, true, some, none, List, arith, Option-cases, ◌==◌,
}
use agentschat.Prelude.Rows.{find_one-holds, find_one-insert_row, find_one-update_kept}
use agentschat.Prelude.Action.{ok, Result-cases}
use agentschat.Domain.{is_turn_pending}
use agentschat.Debate.Store.{
  Db, DebateSessionEntity, DebateSeatEntity, DebateTurnEntity, find_turn, turn_by_number,
  update_turn,
}
use agentschat.Debate.Turns.{
  is_filled, get_opposite_seat, seat_after, determine_expected_seat, pending_turn,
  create_pending_turn, reassigned, reopen_turn, ensure_pending_turn,
}

-- A turn that waits for its seat's submission, with the whole of its time ahead.
pub record IsOpen (now session n : ℕ) (t : DebateTurnEntity) : Type 0 where
  pub number_is : t.turn_number ≡ n
  pub of_session : t.debate_session_id ≡ session
  pub pending : is_turn_pending t.status ≡ true
  pub unsubmitted : t.event_id ≡ none
  pub deadline : t.deadline_at ≡ some (now + 200000)

reopen_turn-old :
    (now : ℕ) (d : DebateSessionEntity) (seat : DebateSeatEntity) (n : ℕ) (old t : DebateTurnEntity)
    (db : Db)
    → find_turn d.id n db ≡ some old
    → (reopen_turn now d seat n (some old) db).0 ≡ ok t
    → (t ≡ reassigned now seat old)
      × (find_turn d.id n (reopen_turn now d seat n (some old) db).1 ≡ some t)
      × IsOpen now d.id n t
unfolding reopen_turn update_turn find_turn
reopen_turn-old now d seat n old t db e h =
    let own = find_one-holds (turn_by_number d.id n) db.turns old e in
    let found =
      find_one-update_kept (turn_by_number d.id n) (λ u. u.id == old.id) (reassigned now seat)
        (λ u. refl) db.turns in
    (
      ground arith,
      ground (arith, found),
      record {
        number_is = ground (arith, own);
        of_session = ground (arith, own);
        pending = ground arith;
        unsubmitted = ground arith;
        deadline = ground arith;
      },
    )

reopen_turn-new :
    (now : ℕ) (d : DebateSessionEntity) (seat : DebateSeatEntity) (n : ℕ) (t : DebateTurnEntity)
    (db : Db)
    → find_turn d.id n db ≡ none
    → (reopen_turn now d seat n none db).0 ≡ ok t
    → (t ≡ pending_turn now db.next_id d seat n)
      × (find_turn d.id n (reopen_turn now d seat n none db).1 ≡ some t)
unfolding reopen_turn create_pending_turn find_turn
reopen_turn-new now d seat n t db e h =
    let found =
      find_one-insert_row (turn_by_number d.id n) db.turns (pending_turn now db.next_id d seat n) in
    (ground arith, ground (arith, found))

-- What `ensurePendingTurn` gives where it returns.
pub record IsEnsured (now n : ℕ) (d : DebateSessionEntity) (seats : List DebateSeatEntity)
    (db db' : Db) (t : DebateTurnEntity) : Type 0 where
  pub seat : DebateSeatEntity
  pub expected : (determine_expected_seat d.id seats n db).0 ≡ ok seat
  pub filled : is_filled seat ≡ true
  pub to_seat : t.seat_id ≡ seat.id
  pub stored : find_turn d.id n db' ≡ some t
  pub opened : IsOpen now d.id n t

determine_expected_seat-store :
    (session n : ℕ) (seats : List DebateSeatEntity) (db : Db)
    → (determine_expected_seat session seats n db).1 ≡ db
unfolding determine_expected_seat seat_after get_opposite_seat
determine_expected_seat-store session n seats db = ground arith

ensure_pending_turn-expected :
    (now : ℕ) (d : DebateSessionEntity) (seats : List DebateSeatEntity) (n : ℕ) (db : Db)
    (t : DebateTurnEntity)
    → (ensure_pending_turn now d seats n db).0 ≡ ok t
    → (seat : DebateSeatEntity) × ((determine_expected_seat d.id seats n db).0 ≡ ok seat)
unfolding ensure_pending_turn
ensure_pending_turn-expected now d seats n db t h =
    elim (Result-cases (determine_expected_seat d.id seats n db).0) [
      | inl found ↦ found
      | inr (x, e) ↦ absurd (ground arith)
    ]

ensure_pending_turn-reopens :
    (now : ℕ) (d : DebateSessionEntity) (seats : List DebateSeatEntity) (n : ℕ) (db : Db)
    (t : DebateTurnEntity) (seat : DebateSeatEntity)
    → (determine_expected_seat d.id seats n db).0 ≡ ok seat
    → (ensure_pending_turn now d seats n db).0 ≡ ok t
    → (is_filled seat ≡ true)
      × ((reopen_turn now d seat n (find_turn d.id n db) db).0 ≡ ok t)
      × ((ensure_pending_turn now d seats n db).1
          ≡ (reopen_turn now d seat n (find_turn d.id n db) db).1)
unfolding ensure_pending_turn
ensure_pending_turn-reopens now d seats n db t seat e h =
    ground (arith, determine_expected_seat-store d.id n seats db)

pub ensure_pending_turn-IsEnsured :
    (now : ℕ) (d : DebateSessionEntity) (seats : List DebateSeatEntity) (n : ℕ) (db : Db)
    (t : DebateTurnEntity)
    → (ensure_pending_turn now d seats n db).0 ≡ ok t
    → IsEnsured now n d seats db (ensure_pending_turn now d seats n db).1 t
ensure_pending_turn-IsEnsured now d seats n db t h =
    let (seat, e) = ensure_pending_turn-expected now d seats n db t h in
    let (full, k, same) = ensure_pending_turn-reopens now d seats n db t seat e h in
    elim (Option-cases (find_turn d.id n db)) [
      | inl missing ↦
          let new = reopen_turn-new now d seat n t db missing (ground (arith, k)) in
          record {
            seat = seat;
            expected = e;
            filled = full;
            to_seat = ground (arith, new.0);
            stored = ground (arith, same, new.1);
            opened = record {
              number_is = ground (arith, new.0);
              of_session = ground (arith, new.0);
              pending = ground (arith, new.0);
              unsubmitted = ground (arith, new.0);
              deadline = ground (arith, new.0);
            };
          }
      | inr (old, there) ↦
          let kept = reopen_turn-old now d seat n old t db there (ground (arith, k)) in
          record {
            seat = seat;
            expected = e;
            filled = full;
            to_seat = ground (arith, kept.0);
            stored = ground (arith, same, kept.1);
            opened = kept.2;
          }
    ]
