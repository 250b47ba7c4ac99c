-- ===== src/Debate/Deadlines.antt =====
-- What a sweep leaves behind.
use agentschat.Prelude.{
  ℕ, ◌≡◌, refl, ◌⊎◌, inl, inr, true, false, some, none, Option, List, [], arith, Option-cases,
  Bool-cases,
}
use agentschat.Prelude.Table.{find_one, update}
use agentschat.Prelude.Rows.{find_one-holds, find_one-update}
use agentschat.Prelude.Action.{ok, is_ok, ok_value, in_transaction}
use agentschat.Domain.{is_live}
use agentschat.Debate.Store.{
  Db, DebateSessionEntity, DebateSeatEntity, DebateTurnEntity, session_by_id, load_seats, find_turn,
  find_seat,
}
use agentschat.Debate.Ending.{maybe_auto_end_debate_session}
use agentschat.Debate.Presence.{process_event_ids, sync_agent_statuses, unique_from}
use agentschat.Debate.Sweep.{
  Swept, is_overdue, miss_turn, miss_seat, sweep_turn, sweep_session, sweep_transaction,
  publish_sweep, sweep_debate_session,
}
use agentschat.Debate.Requests.Reads.{process_event_ids-notified, sync_each-agents}
use agentschat.Debate.Lifecycle.Effects.{
  ended_at, paused_at, miss_turn-Pauses, maybe_auto_end-cases,
}

miss_turn-ok :
    (now : ℕ) (d : DebateSessionEntity) (seats : List DebateSeatEntity) (t : DebateTurnEntity)
    (seat : DebateSeatEntity) (db : Db)
    → is_ok (miss_turn now d seats t seat db).0 ≡ true
unfolding miss_turn
miss_turn-ok now d seats t seat db = ground arith

sweep_turn-ok :
    (now : ℕ) (d : DebateSessionEntity) (t : Option DebateTurnEntity) (db : Db)
    → is_ok (sweep_turn now d t db).0 ≡ true
unfolding sweep_turn miss_seat
sweep_turn-ok now d none db = refl
sweep_turn-ok now d (some t) db = elim (Option-cases (find_seat t.seat_id (load_seats d.id db))) [
  | inl no_seat ↦ ground arith
  | inr (seat, e) ↦ ground (arith, miss_turn-ok now d (load_seats d.id db) t seat db)
]

sweep_transaction-ok : (now i : ℕ) (db : Db) → is_ok (sweep_transaction now i db).0 ≡ true
unfolding sweep_transaction sweep_session
sweep_transaction-ok now i db = elim (Option-cases (find_one (session_by_id i) db.sessions)) [
  | inl no_row ↦ ground arith
  | inr (d, e) ↦ elim (maybe_auto_end-cases now d db) [
    | inl kept ↦ ground (arith, sweep_turn-ok now d (find_turn d.id d.current_turn_number db) db)
    | inr ((o, h), ends) ↦ ground arith
  ]
]

-- An overdue turn of a filled-in seat pauses the debate.
sweep_transaction-overdue :
    (now i : ℕ) (db : Db) (d : DebateSessionEntity) (t : DebateTurnEntity) (seat : DebateSeatEntity)
    → find_one (session_by_id i) db.sessions ≡ some d
    → maybe_auto_end_debate_session now d db ≡ (ok none, db)
    → is_live d.status ≡ true
    → find_turn d.id d.current_turn_number db ≡ some t
    → find_seat t.seat_id (load_seats d.id db) ≡ some seat
    → is_overdue now t ≡ true
    → (n : ℕ) × ((sweep_transaction now i db).1.sessions
        ≡ update (session_by_id d.id) (paused_at n) db.sessions)
unfolding sweep_transaction sweep_session sweep_turn miss_seat
sweep_transaction-overdue now i db d t seat e kept live there sits late =
    let (n, s) = miss_turn-Pauses now d (load_seats d.id db) t seat db in (n, ground arith)

sweep_transaction-still :
    (now i : ℕ) (db : Db) (d : DebateSessionEntity) (t : DebateTurnEntity)
    → find_one (session_by_id i) db.sessions ≡ some d
    → maybe_auto_end_debate_session now d db ≡ (ok none, db)
    → (is_live d.status ≡ false)
      ⊎ ((find_turn d.id d.current_turn_number db ≡ some t) × (is_overdue now t ≡ false))
    → (sweep_transaction now i db).1 ≡ db
unfolding sweep_transaction sweep_session sweep_turn
sweep_transaction-still now i db d t e kept why = ground arith

-- A sweep that found nothing to do.
sweep_transaction-idle :
    (now i : ℕ) (db : Db) (d : DebateSessionEntity)
    → find_one (session_by_id i) db.sessions ≡ some d
    → maybe_auto_end_debate_session now d db ≡ (ok none, db)
    → (t : Option DebateTurnEntity) → find_turn d.id d.current_turn_number db ≡ t
    → (sweep_turn now d t db).1 ≡ db
    → (sweep_transaction now i db).1 ≡ db
unfolding sweep_transaction sweep_session
sweep_transaction-idle now i db d e kept t there same = ground arith

-- The session that is found after the whole table was updated at its id.
found_after :
    (i : ℕ) (db : Db) (d e : DebateSessionEntity) (f : DebateSessionEntity → DebateSessionEntity)
    (after : List DebateSessionEntity)
    → ((s : DebateSessionEntity) → (f s).id ≡ s.id)
    → find_one (session_by_id i) db.sessions ≡ some d
    → after ≡ update (session_by_id d.id) f db.sessions
    → find_one (session_by_id i) after ≡ some e
    → e ≡ f d
found_after i db d e f after keeps was changed now_is = ground (
  arith,
  find_one-holds (session_by_id i) db.sessions d was,
  find_one-update (λ (s : DebateSessionEntity). s.id) f keeps i d.id db.sessions,
)

module _ (now i : ℕ) (db : Db) (e : DebateSessionEntity) (t : DebateTurnEntity)
    (seat : DebateSeatEntity)
    (found : find_one (session_by_id i) (sweep_transaction now i db).1.sessions ≡ some e)
    (live : is_live e.status ≡ true)
    (current : find_turn e.id e.current_turn_number (sweep_transaction now i db).1 ≡ some t)
    (seated : find_seat t.seat_id (load_seats e.id (sweep_transaction now i db).1)
      ≡ some seat) where
  -- Where nothing ended by itself, the turn decides.
  on_time-turn :
      (d : DebateSessionEntity) (t' : DebateTurnEntity)
      → find_one (session_by_id i) db.sessions ≡ some d
      → maybe_auto_end_debate_session now d db ≡ (ok none, db)
      → is_live d.status ≡ true
      → find_turn d.id d.current_turn_number db ≡ some t'
      → is_overdue now t ≡ false
  on_time-turn d t' was kept on there = elim (Bool-cases (is_overdue now t')) [
    | inr early ↦
        ground (arith, sweep_transaction-still now i db d t' was kept (inr (there, early)))
    | inl late ↦ elim (Option-cases (find_seat t'.seat_id (load_seats d.id db))) [
      | inl no_seat ↦
          let idle =
            sweep_transaction-idle now i db d was kept (some t') there
              (unfold sweep_turn miss_seat in ground arith) in
          absurd (ground arith)
      | inr (s, sits) ↦
          let (n, changed) =
            sweep_transaction-overdue now i db d t' s was kept on there sits late in
          absurd
            (ground (arith, found_after i db d e (paused_at n) _ (λ _. refl) was changed found))
    ]
  ]

  on_time-kept :
      (d : DebateSessionEntity)
      → find_one (session_by_id i) db.sessions ≡ some d
      → maybe_auto_end_debate_session now d db ≡ (ok none, db)
      → is_overdue now t ≡ false
  on_time-kept d was kept = elim (Option-cases (find_turn d.id d.current_turn_number db)) [
    | inl no_turn ↦
        let idle =
          sweep_transaction-idle now i db d was kept none no_turn (unfold sweep_turn in refl) in
        absurd (ground arith)
    | inr (t', there) ↦ elim (Bool-cases (is_live d.status)) [
      | inl on ↦ on_time-turn d t' was kept on there
      | inr off ↦ absurd (ground (arith, sweep_transaction-still now i db d t' was kept (inl off)))
    ]
  ]

  sweep_transaction-on_time : is_overdue now t ≡ false
  sweep_transaction-on_time = elim (Option-cases (find_one (session_by_id i) db.sessions)) [
    | inl no_row ↦ absurd (unfold sweep_transaction sweep_session in ground arith)
    | inr (d, was) ↦ elim (maybe_auto_end-cases now d db) [
      | inl kept ↦ on_time-kept d was kept
      | inr ((o, h), (n, running, s)) ↦
          let changed : (sweep_transaction now i db).1.sessions
              ≡ update (session_by_id d.id) (ended_at n) db.sessions =
            unfold sweep_transaction sweep_session in ground arith in
          absurd (ground (arith, found_after i db d e (ended_at n) _ (λ _. refl) was changed found))
    ]
  ]

publish_sweep-tables :
    (swept : Swept) (db : Db)
    → ((publish_sweep swept db).1.sessions ≡ db.sessions)
      × ((publish_sweep swept db).1.seats ≡ db.seats)
      × ((publish_sweep swept db).1.turns ≡ db.turns)
      × ((publish_sweep swept db).1.events ≡ db.events)
unfolding publish_sweep sync_agent_statuses
publish_sweep-tables none db = (refl, refl, refl, refl)
publish_sweep-tables (some (events, agents)) db =
    let handed = process_event_ids-notified events db in
    let db2 = record db { notified = (process_event_ids events db).1.notified } in
    ground (arith, sync_each-agents (unique_from [] agents) db2)

pub sweep_debate_session-commits :
    (now i : ℕ) (db : Db)
    → let after = (sweep_debate_session now i db).1 in
      let swept = (sweep_transaction now i db).1 in
      (is_ok (sweep_transaction now i db).0 ≡ true)
      × (after.sessions ≡ swept.sessions)
      × (after.seats ≡ swept.seats)
      × (after.turns ≡ swept.turns)
      × (after.events ≡ swept.events)
unfolding sweep_debate_session in_transaction
sweep_debate_session-commits now i db =
    let (swept, e) = ok_value (sweep_transaction now i db).0 (sweep_transaction-ok now i db) in
    let tables = publish_sweep-tables swept (sweep_transaction now i db).1 in
    (sweep_transaction-ok now i db, ground arith, ground arith, ground arith, ground arith)

-- After a sweep no live debate waits for a turn whose time is up: where the session is live, its
-- current turn exists and the turn's seat exists, the turn is not overdue.
pub sweep_debate_session-on_time :
    (now i : ℕ) (db : Db) (e : DebateSessionEntity) (t : DebateTurnEntity) (seat : DebateSeatEntity)
    → let after = (sweep_debate_session now i db).1 in
      find_one (session_by_id i) after.sessions ≡ some e
      → is_live e.status ≡ true
      → find_turn e.id e.current_turn_number after ≡ some t
      → find_seat t.seat_id (load_seats e.id after) ≡ some seat
      → is_overdue now t ≡ false
unfolding find_turn load_seats
sweep_debate_session-on_time now i db e t seat found live current sits =
    let (fine, s, u, v, w) = sweep_debate_session-commits now i db in
    sweep_transaction-on_time now i db e t seat (ground arith) live (ground arith) (ground arith)
