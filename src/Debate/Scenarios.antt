-- ===== src/Debate/Scenarios.antt =====
-- A debate on concrete rows: the human 9 hosts session 10 in thread 5; agent 1 has the pro seat 21
-- and agent 2 the con seat 22.
mod Rules
use agentschat.Prelude.{
  ℕ, ◌≡◌, refl, Bool, true, false, not, Option, none, some, List, [], ◌∷◌, inl, inr,
}
use agentschat.Prelude.Table.{
  find_one, find_by, exists, update, delete, insert_row, insert_by, order_by,
}
use agentschat.Prelude.Action.{ok, is_ok, in_transaction}
use agentschat.Text.{Unknown, codes, optional_string, trim, is_space, trim_start}
use agentschat.Domain.{
  SubjectType, Subject, AgentStatus, DebateSessionStatus, DebateSeatStatus, DebateSeatStance,
  DebateTurnStatus, ThreadParticipantRole,
}
use agentschat.Debate.Store.{
  Db, DebateSessionEntity, DebateSeatEntity, DebateTurnEntity, AgentEntity, ModerationActionEntity,
  ModerationKind, session_by_id, find_session, update_session, update_seat, update_turn, find_turn,
  load_seats, find_seat, bind_actor, create_debate_event, create_system_debate_event,
}
use agentschat.Debate.Turns.{
  empty_metadata, get_opposite_seat, seat_after, determine_expected_seat, create_pending_turn,
  reopen_turn, ensure_pending_turn, create_turn_assigned_event,
}
use agentschat.Debate.Ending.{
  Outcome, seated_agents, collect_session_agent_ids, skip_turn, finalize_debate_session,
  get_debate_start_time, is_debate_duration_exceeded, maybe_auto_end_debate_session,
}
use agentschat.Debate.Presence.{
  has_live_seat, sync_agent_status, unique_from, sync_each, sync_agent_statuses, process_event_ids,
}
use agentschat.Debate.Sweep.{
  is_overdue, miss_turn, miss_seat, sweep_turn, sweep_session, sweep_transaction, publish_sweep,
  sweep_debate_session,
}
use agentschat.Debate.Host.{
  is_host, assert_host_actor, start_transaction, start_debate, publish, pause_transaction,
  pause_debate, resume_transaction, resume_debate, end_transaction, end_debate,
}
use agentschat.Debate.Participants.{
  priority, merge_participant_role, is_participation, join_thread, ensure_participant,
}
use agentschat.Debate.Submit.{
  TurnInput, PreparedTurnSubmission, Submitted, normalize_turn_number,
  resolve_seat_for_turn_submission, current_or_new_turn, open_turn, prepare_turn_submission,
  await_replacement, pass_turn, next_turn, complete_turn_submission, submit_transaction,
}
use agentschat.Debate.Seating.{assert_spectator_comment_allowed}
use agentschat.Debate.Requests.{Request, serve}
use agentschat.Debate.Lifecycle.Status.{Evolves}
use agentschat.Debate.Lifecycle.Run.{serve-Evolves}
use agentschat.Debate.Prepared.{IsPrepared, prepare_turn_submission-IsPrepared}
use agentschat.Debate.Completion.{IsCompleted, submit_transaction-completes}
use agentschat.Debate.Opening.{IsRunning, start_transaction-IsRunning}
use agentschat.Debate.Order.{IsPair, next_speaker}
use agentschat.Debate.Deadlines.{sweep_debate_session-on_time}
use agentschat.Debate.Guards.{IsGuarded, takes_comment, host_transactions-IsGuarded}
use agentschat.Debate.Refusals.{IsSweptOnly}
use agentschat.Debate.Roles.{}
use agentschat.Debate.Statuses.{IsSynced}
use agentschat.Moderation.Actor.{
  is_still_active, latest_event_at, active_since, assert_actions, assert_actor_allowed,
}

abbrev host : Subject
host = record { type = SubjectType.human; id = 9 }

abbrev stranger : Subject
stranger = record { type = SubjectType.human; id = 8 }

abbrev session_at : DebateSessionStatus → ℕ → DebateSessionEntity
session_at status n = record {
  id = 10;
  thread_id = 5;
  topic = codes "t";
  pro_stance = codes "p";
  con_stance = codes "c";
  host_type = SubjectType.human;
  host_user_id = some 9;
  host_agent_id = none;
  status = status;
  free_entry = true;
  human_host_allowed = true;
  current_turn_number = n;
  started_at = some 0;
  archived_at = none;
  created_at = 0;
}

abbrev seat_of : ℕ → DebateSeatStance → ℕ → ℕ → DebateSeatEntity
seat_of i stance agent order = record {
  id = i;
  debate_session_id = 10;
  stance = stance;
  status = DebateSeatStatus.occupied;
  agent_id = some agent;
  seat_order = order;
}

abbrev pro_seat : DebateSeatEntity
pro_seat = seat_of 21 DebateSeatStance.pro 1 1

abbrev con_seat : DebateSeatEntity
con_seat = seat_of 22 DebateSeatStance.con 2 2

abbrev turn_of : ℕ → ℕ → DebateTurnStatus → DebateTurnEntity
turn_of n seat status = record {
  id = 30;
  debate_session_id = 10;
  seat_id = seat;
  turn_number = n;
  status = status;
  event_id = none;
  deadline_at = some 200000;
  submitted_at = none;
  metadata = empty_metadata;
}

abbrev store : DebateSessionEntity → List DebateTurnEntity → Db
store d turns = record {
  agents =
      record { id = 1; status = AgentStatus.online }
      ∷ record { id = 2; status = AgentStatus.online }
      ∷ [];
  threads = [];
  participants = [];
  sessions = d ∷ [];
  seats = pro_seat ∷ con_seat ∷ [];
  turns = turns;
  events = [];
  actions = [];
  next_id = 40;
  notified = [];
  fan_out_fails = λ i. false;
}

abbrev pending_store : Db
pending_store = store (session_at DebateSessionStatus.pending 1) []

abbrev live_store : Db
live_store =
    store (session_at DebateSessionStatus.live 1) (turn_of 1 21 DebateTurnStatus.pending ∷ [])

abbrev paused_store : Db
paused_store =
    store (session_at DebateSessionStatus.paused 1) (turn_of 1 21 DebateTurnStatus.pending ∷ [])

abbrev ended_store : Db
ended_store = store (session_at DebateSessionStatus.ended 1) []

abbrev current_turn : TurnInput
current_turn = record { debate_session_id = 10; seat_id = none; turn_number = Unknown.undefined }

abbrev an_evening : List (ℕ × Request)
an_evening =
    (100, Request.start host 10)
    ∷ (200, Request.submit 1 current_turn true true)
    ∷ (300, Request.pause host 10 Unknown.undefined)
    ∷ (400, Request.resume host 10)
    ∷ (900000, Request.sweep 10)
    ∷ (900001, Request.end host 10)
    ∷ (900002, Request.read_archive 10 true)
    ∷ []

serve-Evolves_example : Evolves pending_store.sessions (serve an_evening pending_store).sessions
serve-Evolves_example = serve-Evolves an_evening pending_store

abbrev prepared : PreparedTurnSubmission
prepared = record {
  debate_session = session_at DebateSessionStatus.live 1;
  seat = pro_seat;
  debate_turn = turn_of 1 21 DebateTurnStatus.pending;
}

prepare_turn_submission-IsPrepared_example : IsPrepared 500 1 current_turn live_store prepared
unfolding prepare_turn_submission find_session find_one normalize_turn_number
    resolve_seat_for_turn_submission open_turn find_turn current_or_new_turn
prepare_turn_submission-IsPrepared_example =
    prepare_turn_submission-IsPrepared 500 1 current_turn live_store prepared refl

abbrev first_submitted : Submitted
first_submitted = (41, 30, (43 ∷ [], 1 ∷ 2 ∷ []))

submit_transaction-completes_example :
    (p : PreparedTurnSubmission) × ((prepare_turn_submission 500 1 current_turn live_store).0
      ≡ ok p)
    × (t : DebateTurnEntity) × (find_turn p.debate_session.id p.debate_session.current_turn_number
          (submit_transaction 500 1 current_turn live_store).1
        ≡ some t)
    × IsCompleted 500 1 41 p.seat p.debate_turn t
unfolding submit_transaction prepare_turn_submission find_session find_one normalize_turn_number
    resolve_seat_for_turn_submission open_turn find_turn current_or_new_turn ensure_participant
    join_thread insert_row create_debate_event bind_actor complete_turn_submission load_seats
    order_by insert_by find_by update_turn update next_turn seated_agents get_opposite_seat
    pass_turn create_pending_turn update_session create_turn_assigned_event find_seat
    create_system_debate_event
submit_transaction-completes_example =
    submit_transaction-completes 500 1 current_turn live_store first_submitted refl

abbrev started_outcome : Outcome
started_outcome = record {
  debate_session_id = 10;
  thread_id = 5;
  status = DebateSessionStatus.live;
  current_turn_number = 1;
  event_id = 41;
  follow_up_event_ids = 42 ∷ [];
  touched_agent_ids = 1 ∷ 2 ∷ [];
}

start_transaction-IsRunning_example :
    IsRunning 100
      (session_at DebateSessionStatus.pending 1)
      pending_store
      (start_transaction 100 host 10 pending_store).1
      1
unfolding start_transaction find_session find_one assert_host_actor is_host exists load_seats
    order_by insert_by find_by ensure_pending_turn determine_expected_seat find_turn reopen_turn
    create_pending_turn insert_row update_session update create_debate_event bind_actor
    create_turn_assigned_event find_seat create_system_debate_event seated_agents
start_transaction-IsRunning_example =
    start_transaction-IsRunning 100 host 10 pending_store (session_at DebateSessionStatus.pending 1)
      started_outcome refl refl

abbrev resumed_outcome : Outcome
resumed_outcome = record started_outcome { event_id = 40; follow_up_event_ids = 41 ∷ [] }
