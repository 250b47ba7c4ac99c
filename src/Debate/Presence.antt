-- ===== src/Debate/Presence.antt =====
-- After the commit: `processEventIds` hands the new events to the notification service, and
-- `syncAgentStatuses` tells which of the touched agents are debating.
use agentschat.Prelude.{
  ℕ, Bool, ◌&&◌, List, [], ◌∷◌, ◌++◌, Option, none, some, ◌==◌, holds, if◌then◌else◌,
}
use agentschat.Prelude.Table.{find_one, exists, update}
use agentschat.Prelude.Action.{ok, pure, gets, modify, or_throw, throw_if, ◌>>=◌, ◌>>◌}
use agentschat.Domain.{AgentStatus, is_suspended, same_agent_status, is_occupied, is_live}
use agentschat.Debate.Store.{Db, M, AgentEntity, HttpException, event_not_found}

abbrev pub agent_by_id : ℕ → AgentEntity → Bool
agent_by_id i a = a.id == i

-- The agent occupies a seat of a live session.
unfoldable pub has_live_seat : ℕ → Db → Bool
has_live_seat a db =
    exists
      (λ seat.
        holds seat.agent_id a
        && is_occupied seat.status
        && exists (λ d. d.id == seat.debate_session_id && is_live d.status) db.sessions)
      db.seats

abbrev pub next_status : ℕ → Db → AgentStatus
next_status a db = if has_live_seat a db then AgentStatus.debating else AgentStatus.online

abbrev set_status : ℕ → AgentStatus → Db → Db
set_status a status db = record db {
  agents = update (agent_by_id a) (λ r. record r { status = status }) db.agents;
}

abbrev sync_found : ℕ → Option AgentEntity → Db → Db
sync_found a none db = db
sync_found a (some r) db =
    if is_suspended r.status
    then db
    else if same_agent_status r.status (next_status a db)
    then db
    else set_status a (next_status a db) db

unfoldable pub sync_agent_status : ℕ → Db → Db
sync_agent_status a db = sync_found a (find_one (agent_by_id a) db.agents) db

-- `[...new Set(ids)]`: the first of each
unfoldable pub unique_from : List ℕ → List ℕ → List ℕ
unique_from seen [] = []
unique_from seen (a ∷ ids) =
    let known = exists (λ b. b == a) seen in
    let rest = unique_from (if known then seen else a ∷ seen) ids in
    if known then rest else a ∷ rest

unfoldable pub sync_each : List ℕ → Db → Db
sync_each [] db = db
sync_each (a ∷ ids) db = sync_each ids (sync_agent_status a db)

unfoldable pub sync_agent_statuses : List ℕ → M (Unit {0})
sync_agent_statuses ids db = (ok tt, sync_each (unique_from [] ids) db)

-- `processEventById` of notifications.service.ts; its fan-out may throw.
unfoldable pub process_event_by_id : ℕ → M (Unit {0})
process_event_by_id i = do
  found ← gets (λ db. find_one (λ e. e.id == i) db.events)
  event ← or_throw found (HttpException.not_found event_not_found)
  fails ← gets (λ db. db.fan_out_fails event.id)
  throw_if fails HttpException.fan_out_failed
  modify λ db. record db { notified = db.notified ++ event.id ∷ [] }

unfoldable pub process_event_ids : List ℕ → M (Unit {0})
process_event_ids [] = pure tt
process_event_ids (i ∷ ids) = do process_event_by_id i; process_event_ids ids
