-- ===== src/Debate/Ending.antt =====
-- How a debate ends: `finalizeDebateSession`, and the limits on its duration and its turns.
use agentschat.Prelude.{
  ℕ, ◌-◌, Bool, ◌||◌, not, List, [], ◌∷◌, Option, none, some, leb, ltb, or_else, if◌then◌else◌,
}
use agentschat.Prelude.Action.{pure, gets, ◌>>=◌, ◌>>◌}
use agentschat.Text.{Text, codes}
use agentschat.Domain.{
  Subject, EventActorType, DebateSessionStatus, DebateTurnStatus, is_live, is_paused,
  is_turn_pending,
}
use agentschat.Debate.Store.{
  Db, M, DebateSessionEntity, DebateSeatEntity, DebateTurnEntity, DebateEvent, update_session,
  update_turn, find_turn, load_seats, bind_actor, bind_system_actor, create_debate_event,
}
use agentschat.Debate.Turns.{max_total_turn_count, default_debate_duration_ms}

-- What an operation on a session returns.
pub record Outcome : Type 0 where
  pub debate_session_id : ℕ
  pub thread_id : ℕ
  pub status : DebateSessionStatus
  pub current_turn_number : ℕ
  pub event_id : ℕ
  pub follow_up_event_ids : List ℕ
  pub touched_agent_ids : List ℕ

-- The options of `finalizeDebateSession`.
pub record Finalize : Type 0 where
  pub actor : Option Subject
  pub reason : Option Text
  pub final_turn_number : Option ℕ
  pub current_turn_number : Option ℕ

-- The ids of the seated agents, in seat order.
unfoldable pub seated_agents : List DebateSeatEntity → List ℕ
seated_agents [] = []
seated_agents (s ∷ seats) =
    let rest = seated_agents seats in elim s.agent_id [ none ↦ rest | some a ↦ a ∷ rest ]

unfoldable pub collect_session_agent_ids : ℕ → Db → List ℕ
collect_session_agent_ids session db = seated_agents (load_seats session db)

abbrev pub skipped : ℕ → Option Text → DebateTurnEntity → DebateTurnEntity
skipped now reason t = record t {
  status = DebateTurnStatus.skipped;
  deadline_at = none;
  metadata = record (t.metadata) {
    ended_at = some now;
    ended_reason = elim reason [ none ↦ t.metadata.ended_reason | some r ↦ some r ];
  };
}

-- The current turn is skipped if it is still open.
unfoldable pub skip_turn : ℕ → Option Text → Option DebateTurnEntity → M (Unit {0})
unfolding update_turn
skip_turn now reason none = pure tt
skip_turn now reason (some t) =
    if is_turn_pending t.status then update_turn t.id (skipped now reason) else pure tt

abbrev ending_actor : Option Subject → EventActorType × Option ℕ × Option ℕ
ending_actor none = bind_system_actor
ending_actor (some a) = bind_actor a

unfoldable pub finalize_debate_session : ℕ → DebateSessionEntity → Finalize → M Outcome
unfolding update_session create_debate_event
finalize_debate_session now d o = do
  current ← gets (find_turn d.id d.current_turn_number)
  skip_turn now o.reason current
  let final = or_else o.final_turn_number d.current_turn_number
  let number = or_else o.current_turn_number d.current_turn_number
  update_session d.id
      (λ s. record s { status = DebateSessionStatus.ended; current_turn_number = number })
  event ← create_debate_event now d (ending_actor o.actor) (DebateEvent.ended final o.reason)
  touched ← gets (collect_session_agent_ids d.id)
  pure (record {
    debate_session_id = d.id;
    thread_id = d.thread_id;
    status = DebateSessionStatus.ended;
    current_turn_number = number;
    event_id = event;
    follow_up_event_ids = [];
    touched_agent_ids = touched;
  })

unfoldable pub get_debate_start_time : DebateSessionEntity → ℕ
get_debate_start_time d = or_else d.started_at d.created_at

-- A clock that is behind the start gives a negative age in the source and 0 here; the limit is
-- positive, so the test is the same.
unfoldable pub is_debate_duration_exceeded : ℕ → DebateSessionEntity → Bool
is_debate_duration_exceeded now d = leb default_debate_duration_ms (now - get_debate_start_time d)

abbrev pub by_duration : Finalize
by_duration = record {
  actor = none;
  reason = some (codes "duration_limit_reached");
  final_turn_number = none;
  current_turn_number = none;
}

abbrev pub by_turn_limit : ℕ → Finalize
by_turn_limit n = record {
  actor = none;
  reason = some (codes "turn_limit_reached");
  final_turn_number = some n;
  current_turn_number = some n;
}

abbrev finalized : Outcome → M (Option Outcome)
finalized o = pure (some o)

unfoldable pub maybe_auto_end_debate_session : ℕ → DebateSessionEntity → M (Option Outcome)
maybe_auto_end_debate_session now d =
    if not (is_live d.status || is_paused d.status)
    then pure none
    else if is_debate_duration_exceeded now d
    then finalize_debate_session now d by_duration >>= finalized
    else if ltb max_total_turn_count d.current_turn_number
    then finalize_debate_session now d (by_turn_limit max_total_turn_count) >>= finalized
    else pure none
