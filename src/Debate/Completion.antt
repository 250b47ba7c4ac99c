-- ===== src/Debate/Completion.antt =====
-- What an accepted submission does to the turns.
use agentschat.Prelude.{
  ℕ, ◌+◌, ◌≡◌, refl, inl, inr, false, not, some, List, arith, leb, Bool-cases, Option-cases, ◌==◌,
  ◌∙◌, ap,
}
use agentschat.Prelude.Table.{find_one, update}
use agentschat.Prelude.Rows.{find_one-insert_row, find_one-update_kept}
use agentschat.Prelude.Action.{ok, Result-cases}
use agentschat.Domain.{DebateTurnStatus, Subject, ThreadParticipantRole, is_turn_pending}
use agentschat.Debate.Store.{
  Db, DebateSessionEntity, DebateSeatEntity, DebateTurnEntity, load_seats, find_turn,
  turn_by_number, DebateEvent, create_debate_event, bind_actor,
}
use agentschat.Debate.Turns.{
  pending_turn, create_pending_turn, get_opposite_seat, max_total_turn_count,
}
use agentschat.Debate.Ending.{seated_agents, Finalize, skip_turn, finalize_debate_session}
use agentschat.Debate.Participants.{ensure_participant, join_thread}
use agentschat.Debate.Submit.{
  TurnInput, PreparedTurnSubmission, Submitted, completed, at_turn_limit, await_replacement,
  pass_turn, next_turn, complete_turn_submission, agent_subject, submit_transaction,
  prepare_turn_submission,
}
use agentschat.Debate.Stored.{prepare_turn_submission-stored}

-- A turn that is found is found after the rows that a submission adds.
pass_turn-keeps :
    (now : ℕ) (d : DebateSessionEntity) (seats : List DebateSeatEntity) (next : DebateSeatEntity)
    (m : ℕ) (touched : List ℕ) (db : Db) (session n : ℕ) (t : DebateTurnEntity)
    → find_turn session n db ≡ some t
    → find_turn session n (pass_turn now d seats next m touched db).1 ≡ some t
unfolding pass_turn create_pending_turn find_turn
pass_turn-keeps now d seats next m touched db session n t e = ground (
  arith,
  find_one-insert_row (turn_by_number session n) db.turns (pending_turn now db.next_id d next m),
)

next_turn-keeps :
    (now : ℕ) (p : PreparedTurnSubmission) (seats : List DebateSeatEntity) (db : Db) (session n : ℕ)
    (t : DebateTurnEntity)
    → find_turn session n db ≡ some t
    → find_turn session n (next_turn now p seats db).1 ≡ some t
unfolding next_turn get_opposite_seat await_replacement find_turn
next_turn-keeps now p seats db session n t e =
    elim (Option-cases (find_one (λ (s : DebateSeatEntity). not (s.id == p.seat.id)) seats)) [
      | inl alone ↦ ground arith
      | inr (next, k) ↦ ground (
        arith,
        pass_turn-keeps now p.debate_session seats next (p.debate_turn.turn_number + 1)
            (seated_agents seats) db session n t e,
      )
    ]

finalize_debate_session-keeps :
    (now : ℕ) (d : DebateSessionEntity) (f : Finalize) (db : Db) (t : DebateTurnEntity)
    → find_turn d.id d.current_turn_number db ≡ some t
    → is_turn_pending t.status ≡ false
    → (finalize_debate_session now d f db).1.turns ≡ db.turns
unfolding finalize_debate_session skip_turn
finalize_debate_session-keeps now d f db t e closed = ground arith

-- The submitted turn is completed, whether the debate goes on, pauses or ends.
complete_turn_submission-completes :
    (now : ℕ) (p : PreparedTurnSubmission) (agent event : ℕ) (db : Db)
    → let d = p.debate_session in
      find_turn d.id d.current_turn_number db ≡ some p.debate_turn
      → find_turn d.id d.current_turn_number (complete_turn_submission now p agent event db).1
        ≡ some (completed now event agent p.seat p.debate_turn)
unfolding complete_turn_submission find_turn
complete_turn_submission-completes now p agent event db e =
    let d = p.debate_session in
    let t = p.debate_turn in
    let f = completed now event agent p.seat in
    let db' = record db { turns = update (λ r. r.id == t.id) f db.turns } in
    let done : find_turn d.id d.current_turn_number db' ≡ some (f t) =
      unfold find_turn in
      ground (
        arith,
        find_one-update_kept (turn_by_number d.id d.current_turn_number) (λ r. r.id == t.id) f
            (λ r. refl) db.turns,
      ) in
    elim (Bool-cases (leb max_total_turn_count t.turn_number)) [
      | inl last ↦ ground (
        arith,
        finalize_debate_session-keeps now d (at_turn_limit t.turn_number) db' (f t) done refl,
      )
      | inr more ↦ ground (
        arith,
        next_turn-keeps now p (load_seats d.id db) db' d.id d.current_turn_number (f t) done,
      )
    ]

ensure_participant-turns :
    (t : ℕ) (a : Subject) (r : ThreadParticipantRole) (db : Db)
    → (ensure_participant t a r db).1.turns ≡ db.turns
unfolding ensure_participant join_thread
ensure_participant-turns t a r db = ground arith

submit_transaction-turns :
    (now agent : ℕ) (input : TurnInput) (db : Db) (s : Submitted) (p : PreparedTurnSubmission)
    → (submit_transaction now agent input db).0 ≡ ok s
    → (prepare_turn_submission now agent input db).0 ≡ ok p
    → (posted : Db) × (posted.turns ≡ (prepare_turn_submission now agent input db).1.turns)
      × ((submit_transaction now agent input db).1
          ≡ (complete_turn_submission now p agent s.0 posted).1)
unfolding submit_transaction
submit_transaction-turns now agent input db s p h e =
    let d = p.debate_session in
    let db1 = (prepare_turn_submission now agent input db).1 in
    let joined =
      ensure_participant d.thread_id (agent_subject agent) ThreadParticipantRole.member db1 in
    let posted =
      create_debate_event now d (bind_actor (agent_subject agent))
        (DebateEvent.turn_submit p.seat.id p.debate_turn.turn_number) joined.1 in
    let same =
      ensure_participant-turns d.thread_id (agent_subject agent) ThreadParticipantRole.member db1 in
    (posted.1, ground arith, ground arith)

-- A turn before and after it was completed by an agent's event.
pub record IsCompleted (now agent event : ℕ) (seat : DebateSeatEntity)
    (before after : DebateTurnEntity) : Type 0 where
  pub same_turn : after.id ≡ before.id
  pub same_seat : after.seat_id ≡ before.seat_id
  pub same_deadline : after.deadline_at ≡ before.deadline_at
  pub is_completed : after.status ≡ DebateTurnStatus.completed
  pub with_event : after.event_id ≡ some event
  pub at_time : after.submitted_at ≡ some now
  pub by_agent : after.metadata.submitted_by_agent_id ≡ some agent
  pub from_seat : after.metadata.seat_id ≡ some seat.id

completed-IsCompleted :
    (now agent event : ℕ) (seat : DebateSeatEntity) (t : DebateTurnEntity)
    → IsCompleted now agent event seat t (completed now event agent seat t)
completed-IsCompleted now agent event seat t = record {
  same_turn = refl;
  same_seat = refl;
  same_deadline = refl;
  is_completed = refl;
  with_event = refl;
  at_time = refl;
  by_agent = refl;
  from_seat = refl;
}

-- An accepted submission completes the session's current turn: the turn that was prepared is stored
-- as completed, with the id of the new event, the agent, its seat and the time, whether the debate then goes
-- on, pauses for a replacement or ends at the turn limit.
pub submit_transaction-completes :
    (now agent : ℕ) (input : TurnInput) (db : Db) (s : Submitted)
    → (submit_transaction now agent input db).0 ≡ ok s
    → (p : PreparedTurnSubmission) × ((prepare_turn_submission now agent input db).0 ≡ ok p)
      × (t : DebateTurnEntity) × (find_turn p.debate_session.id p.debate_session.current_turn_number
            (submit_transaction now agent input db).1
          ≡ some t)
      × IsCompleted now agent s.0 p.seat p.debate_turn t
submit_transaction-completes now agent input db s h =
    elim (Result-cases (prepare_turn_submission now agent input db).0) [
      | inr (x, e) ↦ absurd (unfold submit_transaction in ground arith)
      | inl (p, e) ↦
          let (posted, same, after) = submit_transaction-turns now agent input db s p h e in
          let d = p.debate_session in
          let there : find_turn d.id d.current_turn_number posted ≡ some p.debate_turn =
            unfold find_turn in
            ground (arith, prepare_turn_submission-stored now agent input db p e) in
          (
            p,
            e,
            completed now s.0 agent p.seat p.debate_turn,
            ap (λ x. find_turn d.id d.current_turn_number x) after
                ∙ complete_turn_submission-completes now p agent s.0 posted there,
            completed-IsCompleted now agent s.0 p.seat p.debate_turn,
          )
    ]
