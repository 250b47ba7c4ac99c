-- ===== src/Debate/Lifecycle/Effects.antt =====
-- What each transaction does to the session table.
use agentschat.Prelude.{
  ℕ, ◌+◌, ◌≡◌, refl, ◌⊎◌, inl, inr, true, ◌||◌, ltb, Bool-cases, some, none, Option, List, arith,
  Option-cases, or_else,
}
use agentschat.Prelude.Table.{find_one, update}
use agentschat.Prelude.Action.{ok, is_ok, ok_value}
use agentschat.Text.{Unknown}
use agentschat.Domain.{
  Subject, DebateSessionStatus, ThreadParticipantRole, is_pending, is_live, is_paused,
}
use agentschat.Debate.Store.{
  Db, DebateSessionEntity, DebateSeatEntity, DebateTurnEntity, session_by_id, load_seats, find_turn,
  find_seat,
}
use agentschat.Debate.Turns.{ensure_pending_turn, max_total_turn_count}
use agentschat.Debate.Ending.{
  Outcome, Finalize, skip_turn, finalize_debate_session, maybe_auto_end_debate_session, by_duration,
  by_turn_limit, is_debate_duration_exceeded,
}
use agentschat.Debate.Host.{
  started, resumed, start_transaction, pause_transaction, resume_transaction,
}
use agentschat.Debate.Participants.{ensure_participant, join_thread}
use agentschat.Debate.Sweep.{is_overdue, sweep_session, sweep_turn, miss_seat, miss_turn}

pub ensure_pending_turn-sessions :
    (now : ℕ) (d : DebateSessionEntity) (seats : List DebateSeatEntity) (n : ℕ) (db : Db)
    → (ensure_pending_turn now d seats n db).1.sessions ≡ db.sessions
unfolding ensure_pending_turn
ensure_pending_turn-sessions now d seats n db = ground arith

pub ensure_participant-sessions :
    (t : ℕ) (a : Subject) (r : ThreadParticipantRole) (db : Db)
    → (ensure_participant t a r db).1.sessions ≡ db.sessions
unfolding ensure_participant join_thread
ensure_participant-sessions t a r db = ground arith

skip_turn-sessions :
    (now : ℕ) (o : Finalize) (t : Option DebateTurnEntity) (db : Db)
    → ((skip_turn now o.reason t db).0 ≡ ok tt)
      × ((skip_turn now o.reason t db).1.sessions ≡ db.sessions)
unfolding skip_turn
skip_turn-sessions now o t db = ground arith

module _ (now : ℕ) (actor : Subject) (i : ℕ) (db : Db) (d : DebateSessionEntity) (o : Outcome)
    (found : find_one (session_by_id i) db.sessions ≡ some d) where
  -- Starting makes a pending session live.
  pub start_transaction-sessions :
      (start_transaction now actor i db).0 ≡ ok o
      → (is_pending d.status ≡ true)
        × ((start_transaction now actor i db).1.sessions
            ≡ update (session_by_id d.id) (started now o.current_turn_number d) db.sessions)
  unfolding start_transaction
  start_transaction-sessions h =
      ground
        (arith, ensure_pending_turn-sessions now d (load_seats d.id db) d.current_turn_number db)

  -- Resuming makes a paused session live.
  pub resume_transaction-sessions :
      (resume_transaction now actor i db).0 ≡ ok o
      → (is_paused d.status ≡ true)
        × ((resume_transaction now actor i db).1.sessions
            ≡ update (session_by_id d.id) (resumed o.current_turn_number) db.sessions)
  unfolding resume_transaction
  resume_transaction-sessions h =
      ground
        (arith, ensure_pending_turn-sessions now d (load_seats d.id db) d.current_turn_number db)

  -- Pausing makes a live session paused.
  pub pause_transaction-sessions :
      (reason : Unknown)
      → (pause_transaction now actor i reason db).0 ≡ ok o
      → (is_live d.status ≡ true)
        × ((pause_transaction now actor i reason db).1.sessions
            ≡ update
                (session_by_id d.id)
                (λ s. record s { status = DebateSessionStatus.paused })
                db.sessions)
  unfolding pause_transaction
  pause_transaction-sessions reason h = ground arith

-- Every ending writes the same two columns.
abbrev pub ended_at : ℕ → DebateSessionEntity → DebateSessionEntity
ended_at n s = record s { status = DebateSessionStatus.ended; current_turn_number = n }

pub finalize_debate_session-sessions :
    (now : ℕ) (d : DebateSessionEntity) (f : Finalize) (db : Db)
    → (n : ℕ) × ((finalize_debate_session now d f db).1.sessions
        ≡ update (session_by_id d.id) (ended_at n) db.sessions)
unfolding finalize_debate_session
finalize_debate_session-sessions now d f db = (
  or_else f.current_turn_number d.current_turn_number,
  ground (arith, skip_turn-sessions now f (find_turn d.id d.current_turn_number db) db),
)

-- A finalisation never throws.
pub finalize_debate_session-ok :
    (now : ℕ) (d : DebateSessionEntity) (f : Finalize) (db : Db)
    → is_ok (finalize_debate_session now d f db).0 ≡ true
unfolding finalize_debate_session
finalize_debate_session-ok now d f db =
    ground (arith, skip_turn-sessions now f (find_turn d.id d.current_turn_number db) db)

-- The session was ended, and had been live or paused.
abbrev pub Ends : DebateSessionEntity → Db → Db → Type 0
Ends d db db' =
    (n : ℕ) × (is_live d.status || is_paused d.status ≡ true)
    × (db'.sessions ≡ update (session_by_id d.id) (ended_at n) db.sessions)

auto_end_by :
    (now : ℕ) (d : DebateSessionEntity) (f : Finalize) (db : Db)
    → (o : Outcome) × (n : ℕ) × ((finalize_debate_session now d f db).0 ≡ ok o)
      × ((finalize_debate_session now d f db).1.sessions
          ≡ update (session_by_id d.id) (ended_at n) db.sessions)
auto_end_by now d f db =
    let (o, e) = ok_value _ (finalize_debate_session-ok now d f db) in
    let (n, s) = finalize_debate_session-sessions now d f db in (o, n, e, s)

-- The limits end the session or do nothing at all.
pub maybe_auto_end-cases :
    (now : ℕ) (d : DebateSessionEntity) (db : Db)
    → (maybe_auto_end_debate_session now d db ≡ (ok none, db))
      ⊎ (((o : Outcome) × ((maybe_auto_end_debate_session now d db).0 ≡ ok (some o)))
          × Ends d db (maybe_auto_end_debate_session now d db).1)
unfolding maybe_auto_end_debate_session
maybe_auto_end-cases now d db = elim (Bool-cases (is_live d.status || is_paused d.status)) [
  | inr no_end ↦ inl (ground arith)
  | inl running ↦ elim (Bool-cases (is_debate_duration_exceeded now d)) [
    | inl old ↦
        let (o, n, e, s) = auto_end_by now d by_duration db in
        inr ((o, ground arith), (n, running, ground arith))
    | inr young ↦ elim (Bool-cases (ltb max_total_turn_count d.current_turn_number)) [
      | inl over ↦
          let (o, n, e, s) = auto_end_by now d (by_turn_limit max_total_turn_count) db in
          inr ((o, ground arith), (n, running, ground arith))
      | inr under ↦ inl (ground arith)
    ]
  ]
]

-- The session was paused at another turn.
abbrev pub paused_at : ℕ → DebateSessionEntity → DebateSessionEntity
paused_at n s = record s { status = DebateSessionStatus.paused; current_turn_number = n }

abbrev pub Pauses : DebateSessionEntity → Db → Db → Type 0
Pauses d db db' = (n : ℕ) × (db'.sessions ≡ update (session_by_id d.id) (paused_at n) db.sessions)

pub miss_turn-Pauses :
    (now : ℕ) (d : DebateSessionEntity) (seats : List DebateSeatEntity) (t : DebateTurnEntity)
    (seat : DebateSeatEntity) (db : Db)
    → Pauses d db (miss_turn now d seats t seat db).1
unfolding miss_turn
miss_turn-Pauses now d seats t seat db = (t.turn_number + 1, ground arith)

sweep_turn-cases :
    (now : ℕ) (d : DebateSessionEntity) (t : Option DebateTurnEntity) (db : Db)
    → ((sweep_turn now d t db).1 ≡ db) ⊎ Pauses d db (sweep_turn now d t db).1
unfolding sweep_turn miss_seat
sweep_turn-cases now d none db = inl refl
sweep_turn-cases now d (some t) db = elim (Bool-cases (is_overdue now t)) [
  | inr early ↦ inl (ground arith)
  | inl late ↦ elim (Option-cases (find_seat t.seat_id (load_seats d.id db))) [
    | inl no_seat ↦ inl (ground arith)
    | inr (seat, e) ↦
        let (n, s) = miss_turn-Pauses now d (load_seats d.id db) t seat db in inr (n, ground arith)
  ]
]

-- A sweep leaves the store alone, ends the session, or pauses a live session.
pub sweep_session-cases :
    (now : ℕ) (d : DebateSessionEntity) (db : Db)
    → ((sweep_session now (some d) db).1 ≡ db)
      ⊎ Ends d db (sweep_session now (some d) db).1
      ⊎ ((is_live d.status ≡ true) × Pauses d db (sweep_session now (some d) db).1)
unfolding sweep_session
sweep_session-cases now d db = elim (maybe_auto_end-cases now d db) [
  | inr ((o, e), (n, running, s)) ↦ inr (inl (n, running, ground arith))
  | inl kept ↦ elim (Bool-cases (is_live d.status)) [
    | inr off ↦ inl (ground arith)
    | inl on ↦ elim (sweep_turn-cases now d (find_turn d.id d.current_turn_number db) db) [
      | inl same ↦ inl (ground arith)
      | inr (n, s) ↦ inr (inr (on, (n, ground arith)))
    ]
  ]
]
