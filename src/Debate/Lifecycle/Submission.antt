-- ===== src/Debate/Lifecycle/Submission.antt =====
-- What submitting a turn, seating a replacement and creating a debate do to the session table.
use agentschat.Prelude.{
  ℕ, suc, ap, ◌+◌, ◌≡◌, ◌⊎◌, inl, inr, Bool, true, some, none, Option, List, [], ◌∷◌, arith, leb,
  Bool-cases, Option-cases, ◌==◌,
}
use agentschat.Prelude.Table.{find_one, update, insert_row}
use agentschat.Prelude.Action.{ok, is_ok, Result-cases}
use agentschat.Domain.{Subject, DebateSeatStance, ThreadParticipantRole}
use agentschat.Debate.Store.{
  Db, DebateSessionEntity, DebateSeatEntity, session_by_id, seat_by_id, load_seats,
  create_debate_event, bind_actor, DebateEvent,
}
use agentschat.Debate.Turns.{create_pending_turn, get_opposite_seat, max_total_turn_count}
use agentschat.Debate.Participants.{ensure_participant}
use agentschat.Debate.Submit.{
  TurnInput, PreparedTurnSubmission, Submitted, prepare_turn_submission, at_turn_limit,
  await_replacement, pass_turn, next_turn, completed, complete_turn_submission, submit_transaction,
  agent_subject,
}
use agentschat.Debate.Seating.{seated, replacement_transaction, resolve_replacing_seat}
use agentschat.Debate.Lifecycle.Announce.{Core, announce_debate-core}
use agentschat.Debate.Create.{
  Motion, Created, create_rows, create_transaction, new_session, new_seat,
}
use agentschat.Debate.Eligible.{assert_agents_available_for_seats}
use agentschat.Debate.Prepared.{prepare_turn_submission-sessions}
use agentschat.Debate.Lifecycle.Effects.{
  ensure_participant-sessions, ended_at, paused_at, finalize_debate_session-sessions,
  finalize_debate_session-ok,
}

abbrev pub advanced_to : ℕ → DebateSessionEntity → DebateSessionEntity
advanced_to n s = record s { current_turn_number = n }

next_turn-cases :
    (now : ℕ) (p : PreparedTurnSubmission) (seats : List DebateSeatEntity) (db : Db)
    → let d = p.debate_session in
      let n = p.debate_turn.turn_number + 1 in
      is_ok (next_turn now p seats db).0 ≡ true
      → ((next_turn now p seats db).1.sessions
          ≡ update (session_by_id d.id) (advanced_to n) db.sessions)
        ⊎ ((next_turn now p seats db).1.sessions
            ≡ update (session_by_id d.id) (paused_at n) db.sessions)
unfolding next_turn get_opposite_seat await_replacement pass_turn create_pending_turn
next_turn-cases now p seats db h = ground arith

-- A completed submission ends the session, moves it on, or pauses it.
complete_turn_submission-cases :
    (now : ℕ) (p : PreparedTurnSubmission) (agent event : ℕ) (db : Db)
    → let d = p.debate_session in
      let ys = (complete_turn_submission now p agent event db).1.sessions in
      is_ok (complete_turn_submission now p agent event db).0 ≡ true
      → (n : ℕ) × ((ys ≡ update (session_by_id d.id) (advanced_to n) db.sessions)
          ⊎ (ys ≡ update (session_by_id d.id) (paused_at n) db.sessions)
          ⊎ (ys ≡ update (session_by_id d.id) (ended_at n) db.sessions))
unfolding complete_turn_submission
complete_turn_submission-cases now p agent event db h =
    let t = p.debate_turn in
    let db' = record db {
      turns = update (λ r. r.id == t.id) (completed now event agent p.seat) db.turns;
    } in
    let f = at_turn_limit t.turn_number in
    let ended = finalize_debate_session-sessions now p.debate_session f db' in
    let passed = next_turn-cases now p (load_seats p.debate_session.id db) db' in
    elim (Bool-cases (leb max_total_turn_count t.turn_number)) [
      | inl last ↦ (
        ended.0,
        inr (inr (ground (arith, ended.1, finalize_debate_session-ok now p.debate_session f db'))),
      )
      | inr more ↦ (t.turn_number + 1, ground arith)
    ]

-- What a submission does to the sessions, when it succeeds.
pub submit_transaction-cases :
    (now agent : ℕ) (input : TurnInput) (db : Db) (s : Submitted)
    → (submit_transaction now agent input db).0 ≡ ok s
    → let ys = (submit_transaction now agent input db).1.sessions in
      (p : PreparedTurnSubmission) × (n : ℕ) × ((prepare_turn_submission now agent input db).0
        ≡ ok p)
      × ((ys ≡ update (session_by_id p.debate_session.id) (advanced_to n) db.sessions)
          ⊎ (ys ≡ update (session_by_id p.debate_session.id) (paused_at n) db.sessions)
          ⊎ (ys ≡ update (session_by_id p.debate_session.id) (ended_at n) db.sessions))
unfolding submit_transaction
submit_transaction-cases now agent input db s h =
    elim (Result-cases (prepare_turn_submission now agent input db).0) [
      | inr (x, e) ↦ absurd (ground arith)
      | inl (p, e) ↦
          let d = p.debate_session in
          let db1 = (prepare_turn_submission now agent input db).1 in
          let joined =
            ensure_participant d.thread_id (agent_subject agent) ThreadParticipantRole.member db1 in
          let posted =
            create_debate_event now d (bind_actor (agent_subject agent))
              (DebateEvent.turn_submit p.seat.id p.debate_turn.turn_number) joined.1 in
          let (n, cases) =
            complete_turn_submission-cases now p agent joined.1.next_id posted.1 (ground arith) in
          let same = prepare_turn_submission-sessions now agent input db in
          let same' =
            ensure_participant-sessions d.thread_id (agent_subject agent)
              ThreadParticipantRole.member db1 in
          (p, n, e, ground arith)
    ]

resolve_replacing_seat-store :
    (seats : List DebateSeatEntity) (i : Option ℕ) (db : Db)
    → (resolve_replacing_seat seats i db).1 ≡ db
unfolding resolve_replacing_seat
resolve_replacing_seat-store seats none db = ground arith
resolve_replacing_seat-store seats (some i) db = ground arith

assert_agents_available-store :
    (ids : List ℕ) (except : Option ℕ) (db : Db)
    → (assert_agents_available_for_seats ids except db).1 ≡ db
unfolding assert_agents_available_for_seats
assert_agents_available-store ids except db = ground arith

-- A replacement leaves the sessions alone.
pub replacement_transaction-sessions :
    (now : ℕ) (actor : Subject) (i : ℕ) (seat : Option ℕ) (agent : ℕ) (db : Db) (r : ℕ × ℕ)
    → (replacement_transaction now actor i seat agent db).0 ≡ ok r
    → (replacement_transaction now actor i seat agent db).1.sessions ≡ db.sessions
unfolding replacement_transaction
replacement_transaction-sessions now actor i seat agent db r h =
    elim (Option-cases (find_one (session_by_id i) db.sessions)) [
      | inl no_row ↦ absurd (ground arith)
      | inr (d, e) ↦
          let same = resolve_replacing_seat-store (load_seats d.id db) seat db in
          elim (Result-cases (resolve_replacing_seat (load_seats d.id db) seat db).0) [
            | inr (x, k) ↦ absurd (ground arith)
            | inl (found, k) ↦
                let filled = record db {
                  seats = update (seat_by_id found.id) (seated agent) db.seats;
                } in
                ground (
                  arith,
                  assert_agents_available-store (agent ∷ []) (some found.id) db,
                  ensure_participant-sessions d.thread_id (agent_subject agent)
                      ThreadParticipantRole.member filled,
                )
          ]
    ]

-- A new debate is added to the sessions, which stay.
pub create_transaction-sessions :
    (now : ℕ) (host : Subject) (m : Motion) (free human : Bool) (a b : ℕ) (db : Db) (c : Created)
    → (create_transaction now host m free human a b db).0 ≡ ok c
    → (create_transaction now host m free human a b db).1.sessions
      ≡ insert_row db.sessions (new_session now host m free human db.next_id (suc db.next_id))
unfolding create_transaction create_rows
create_transaction-sessions now host m free human a b db c h =
    let n = db.next_id in
    let d = new_session now host m free human n (suc n) in
    let pro = new_seat d.id DebateSeatStance.pro a 1 (suc (suc n)) in
    let con = new_seat d.id DebateSeatStance.con b 2 (suc (suc (suc n))) in
    ground (
      arith,
      assert_agents_available-store (a ∷ b ∷ []) none db,
      ap (λ (t : Core). t.0)
          ((announce_debate-core now host m a b d pro con).at
            (create_rows now host m free human a b db).1),
    )
