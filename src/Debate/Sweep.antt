-- ===== src/Debate/Sweep.antt =====
-- `sweepDebateSession`: the limits are enforced, and a turn whose deadline has passed is missed,
-- its seat is freed and the debate pauses.
use agentschat.Prelude.{
  ℕ, ◌+◌, Bool, false, not, ◌&&◌, List, [], ◌∷◌, Option, none, some, ltb, is_some, if◌then◌else◌,
}
use agentschat.Prelude.Table.{find_one}
use agentschat.Prelude.Action.{pure, gets, in_transaction, ◌>>=◌, ◌>>◌}
use agentschat.Text.{codes}
use agentschat.Domain.{
  DebateSessionStatus, DebateSeatStatus, DebateTurnStatus, is_live, is_turn_pending,
}
use agentschat.Debate.Store.{
  M, DebateSessionEntity, DebateSeatEntity, DebateTurnEntity, DebateEvent, session_by_id,
  update_session, update_seat, update_turn, find_turn, find_seat, load_seats,
  create_system_debate_event,
}
use agentschat.Debate.Ending.{Outcome, seated_agents, maybe_auto_end_debate_session}
use agentschat.Debate.Presence.{process_event_ids, sync_agent_statuses}

-- The events to hand over, and the agents whose status may have changed.
abbrev pub Swept : Type 0
Swept = Option (List ℕ × List ℕ)

abbrev pub from_outcome : Option Outcome → Swept
from_outcome none = none
from_outcome (some o) = some (o.event_id ∷ o.follow_up_event_ids, o.touched_agent_ids)

-- The turn is pending, was not submitted, and its deadline is not after `now`.
abbrev pub is_overdue : ℕ → DebateTurnEntity → Bool
is_overdue now t =
    is_turn_pending t.status
    && not (is_some t.event_id)
    && elim t.deadline_at [ none ↦ false | some deadline ↦ not (ltb now deadline) ]

abbrev pub missed : ℕ → DebateSeatEntity → DebateTurnEntity → DebateTurnEntity
missed now seat t = record t {
  status = DebateTurnStatus.missed;
  metadata = record (t.metadata) { missed_at = some now; missed_seat_id = some seat.id };
}

abbrev pub freed : DebateSeatEntity → DebateSeatEntity
freed s = record s { agent_id = none; status = DebateSeatStatus.replacing }

unfoldable pub miss_turn :
    ℕ → DebateSessionEntity → List DebateSeatEntity → DebateTurnEntity → DebateSeatEntity → M Swept
unfolding update_turn update_seat update_session create_system_debate_event
miss_turn now d seats t seat = do
  update_turn t.id (missed now seat)
  update_seat seat.id freed
  update_session d.id (λ s. record s {
    status = DebateSessionStatus.paused;
    current_turn_number = t.turn_number + 1;
  })
  missed_event ←
      create_system_debate_event now d
        (DebateEvent.turn_missed seat.id seat.stance seat.agent_id t.turn_number)
  paused_event ←
      create_system_debate_event now d
        (DebateEvent.paused (codes "missed_turn") seat.id seat.stance t.turn_number)
  needed_event ←
      create_system_debate_event now d
        (DebateEvent.replacement_needed seat.id seat.stance d.free_entry t.turn_number)
  pure (some (missed_event ∷ paused_event ∷ needed_event ∷ [], seated_agents seats))

unfoldable pub miss_seat :
    ℕ
    → DebateSessionEntity
    → DebateTurnEntity
    → List DebateSeatEntity
    → Option DebateSeatEntity
    → M Swept
miss_seat now d t seats none = pure none
miss_seat now d t seats (some seat) = miss_turn now d seats t seat

unfoldable pub sweep_turn : ℕ → DebateSessionEntity → Option DebateTurnEntity → M Swept
sweep_turn now d none = pure none
sweep_turn now d (some t) =
    if not (is_overdue now t)
    then pure none
    else do seats ← gets (load_seats d.id); miss_seat now d t seats (find_seat t.seat_id seats)

abbrev sweep_live : ℕ → DebateSessionEntity → Option Outcome → M Swept
sweep_live now d (some o) = pure (from_outcome (some o))
sweep_live now d none = do
  current ← gets (find_turn d.id d.current_turn_number)
  sweep_turn now d current

unfoldable pub sweep_session : ℕ → Option DebateSessionEntity → M Swept
sweep_session now none = pure none
sweep_session now (some d) = do
  ended ← maybe_auto_end_debate_session now d
  if is_live d.status then sweep_live now d ended else pure (from_outcome ended)

-- The part inside the transaction.
unfoldable pub sweep_transaction : ℕ → ℕ → M Swept
sweep_transaction now i = do
  found ← gets (λ db. find_one (session_by_id i) db.sessions)
  sweep_session now found

unfoldable pub publish_sweep : Swept → M (Unit {0})
publish_sweep none = pure tt
publish_sweep (some (events, agents)) = do process_event_ids events; sync_agent_statuses agents

unfoldable pub sweep_debate_session : ℕ → ℕ → M (Unit {0})
sweep_debate_session now i = do
  swept ← in_transaction (sweep_transaction now i)
  publish_sweep swept
