-- ===== src/Debate/Scenarios/Rules.antt =====
-- Sweeps, refusals, roles and verdicts on the rows of the scenarios.
use agentschat.Prelude.{ℕ, ◌==◌, ◌≡◌, refl, true, false, not, ◌&&◌, ◌||◌, none, some, [], ◌∷◌}
use agentschat.Prelude.Table.{update, insert_row, find_one, find_by, exists, insert_by, order_by}
use agentschat.Prelude.Action.{is_ok, in_transaction}
use agentschat.Text.{Unknown, codes, optional_string, optional_boolean, trim, trim_start, is_space}
use agentschat.Domain.{
  AgentStatus, Subject, SubjectType, DebateSessionStatus, DebateTurnStatus, is_live, is_pending,
  is_paused, same_subject,
}
use agentschat.Debate.Store.{
  Db, AgentEntity, ModerationKind, find_turn, load_seats, find_seat, create_debate_event,
  bind_actor,
}
use agentschat.Debate.Ending.{
  get_debate_start_time, is_debate_duration_exceeded, maybe_auto_end_debate_session,
}
use agentschat.Debate.Presence.{
  process_event_by_id, agent_by_id, sync_agent_statuses, process_event_ids,
}
use agentschat.Debate.Sweep.{
  is_overdue, sweep_turn, sweep_session, sweep_transaction, publish_sweep, sweep_debate_session,
}
use agentschat.Debate.Host.{
  start_transaction, pause_transaction, resume_transaction, end_transaction,
}
use agentschat.Debate.Participants.{merge_participant_role, ensure_participant, join_thread}
use agentschat.Debate.Order.{IsPair}
use agentschat.Debate.Deadlines.{sweep_debate_session-on_time}
use agentschat.Debate.Create.{
  CreateDebateInput, create_debate, required_string, create_transaction, create_rows,
  announce_debate, ready_events, save_session, save_seat,
}
use agentschat.Debate.Eligible.{
  assert_distinct_debate_roles, assert_agent_eligible, assert_agents_available_for_seats,
  host_takes_seat, is_reserved_by,
}
use agentschat.Debate.Guards.{
  create_debate-seatable, seatable, IsGuarded, host_transactions-IsGuarded,
}
use agentschat.Debate.Statuses.{IsSynced, sync_agent_statuses-IsSynced}
use agentschat.Moderation.Actor.{assert_actor_allowed}
use agentschat.Moderation.Verdict.{refuses, in_good_standing, assert_actor_allowed-refuses}
use agentschat.Debate.Scenarios.{
  host, session_at, pro_seat, con_seat, turn_of, store, pending_store, live_store, ended_store,
}

-- A store in which every notification fails.
abbrev silent_store : Db
silent_store = record live_store { fan_out_fails = λ i. true }

sweep_debate_session-on_time_example :
    is_overdue 500 (turn_of 1 21 DebateTurnStatus.pending) ≡ false
unfolding sweep_debate_session in_transaction sweep_transaction sweep_session
    maybe_auto_end_debate_session is_debate_duration_exceeded get_debate_start_time find_turn
    find_one sweep_turn publish_sweep find_seat load_seats order_by insert_by find_by
sweep_debate_session-on_time_example =
    sweep_debate_session-on_time 500 10 live_store (session_at DebateSessionStatus.live 1)
      (turn_of 1 21 DebateTurnStatus.pending) pro_seat refl refl refl refl

abbrev pair : IsPair pro_seat con_seat
pair = record { first_order = refl; distinct = refl }

abbrev one_turn : Db
one_turn =
    store (session_at DebateSessionStatus.live 2) (turn_of 1 21 DebateTurnStatus.completed ∷ [])

host_transactions-IsGuarded_example :
    (is_ok (start_transaction 100 host 10 pending_store).0 ≡ true
      → IsGuarded is_pending host 10 pending_store)
    × (is_ok (pause_transaction 100 host 10 Unknown.undefined pending_store).0 ≡ true
        → IsGuarded is_live host 10 pending_store)
    × (is_ok (resume_transaction 100 host 10 pending_store).0 ≡ true
        → IsGuarded is_paused host 10 pending_store)
    × (is_ok (end_transaction 100 host 10 pending_store).0 ≡ true
        → IsGuarded (λ s. is_pending s || is_live s || is_paused s) host 10 pending_store)
host_transactions-IsGuarded_example =
    host_transactions-IsGuarded 100 host 10 pending_store Unknown.undefined

abbrev agent_one : Subject
agent_one = record { type = SubjectType.agent; id = 1 }

sync_agent_statuses-IsSynced_example :
    (r' : AgentEntity) × (find_one
        (agent_by_id 1)
        (sync_agent_statuses (1 ∷ 2 ∷ 1 ∷ []) live_store).1.agents
      ≡ some r')
    × IsSynced true live_store (record { id = 1; status = AgentStatus.online }) r'
unfolding exists find_one
sync_agent_statuses-IsSynced_example =
    sync_agent_statuses-IsSynced (1 ∷ 2 ∷ 1 ∷ []) 1 live_store
      (record { id = 1; status = AgentStatus.online }) refl

abbrev muted_store : Db
muted_store = record live_store {
  actions =
      record {
        action = ModerationKind.mute;
        target = host;
        duration_seconds = some 60;
        min_interval_seconds = none;
        created_at = 0;
      }
      ∷ [];
}

assert_actor_allowed-refuses_example :
    is_ok (assert_actor_allowed 500 host muted_store).0
    ≡ in_good_standing host muted_store
      && not (
          exists
            (λ a. same_subject a.target host && refuses 500 host muted_store a)
            muted_store.actions)
assert_actor_allowed-refuses_example = assert_actor_allowed-refuses 500 host muted_store

abbrev a_motion : CreateDebateInput
a_motion = record {
  topic = Unknown.string (codes "t");
  pro_stance = Unknown.string (codes "p");
  con_stance = Unknown.string (codes "c");
  pro_agent_id = some 1;
  con_agent_id = some 2;
  free_entry = Unknown.boolean true;
  human_host_allowed = Unknown.undefined;
  host_type = none;
  host_id = none;
  host_agent_id = none;
}

create_debate-seatable_example :
    (a : ℕ) × (b : ℕ) × (a_motion.pro_agent_id ≡ some a)
    × (a_motion.con_agent_id ≡ some b)
    × ((a == b) ≡ false)
    × (host_takes_seat host a b ≡ false)
    × (seatable a ended_store ≡ true)
    × (seatable b ended_store ≡ true)
    × (exists (is_reserved_by ended_store (a ∷ b ∷ []) none) ended_store.seats ≡ false)
unfolding create_debate required_string optional_string trim trim_start is_space
    assert_distinct_debate_roles assert_agent_eligible in_transaction create_transaction
    assert_agents_available_for_seats exists find_one find_by create_rows announce_debate
    ready_events process_event_ids process_event_by_id save_session save_seat ensure_participant
    join_thread insert_row create_debate_event bind_actor optional_boolean update
    merge_participant_role
create_debate-seatable_example = create_debate-seatable 100 host a_motion true ended_store refl
