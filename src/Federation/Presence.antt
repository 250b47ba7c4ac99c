-- ===== src/Federation/Presence.antt =====
-- When an agent was last seen: `recordAgentActivity` of agent-activity.ts, and
-- `sweepStaleAgentPresence` with `shouldMarkAgentOffline`.
use agentschat.Prelude.{
  ℕ, ◌-◌, Bool, true, false, ◌&&◌, List, [], ◌∷◌, Option, none, some, ltb, leb, ◌==◌, if◌then◌else◌,
}
use agentschat.Prelude.Table.{find_one, exists, update}
use agentschat.Prelude.Action.{ok}
use agentschat.Domain.{AgentStatus}
use agentschat.Debate.Presence.{unique_from}
use agentschat.Federation.Store.{
  AgentConnectionEntity, AgentEntity, M, Environment, FederatedAgent, presence_stale_after_ms,
}

-- `GREATEST(column, t)` skips a missing value.
abbrev pub greatest : Option ℕ → ℕ → Option ℕ
greatest none t = some t
greatest (some s) t = some (if ltb s t then t else s)

abbrev pub wake_status : AgentStatus → AgentStatus
wake_status AgentStatus.offline = AgentStatus.online
wake_status s = s

abbrev pub is_connection_of : FederatedAgent → AgentConnectionEntity → Bool
is_connection_of a c = c.id == a.connection_id && c.agent_id == a.id

abbrev seen_connection : ℕ → Bool → AgentConnectionEntity → AgentConnectionEntity
seen_connection now heartbeat c = record c {
  last_seen_at = greatest c.last_seen_at now;
  last_heartbeat_at = if heartbeat then greatest c.last_heartbeat_at now else c.last_heartbeat_at;
}

-- Nothing happens where the connection is no longer the agent's.
unfoldable pub record_agent_activity : ℕ → FederatedAgent → Bool → M (Unit {0})
record_agent_activity now a heartbeat db =
    if exists (is_connection_of a) db.connections
    then (
      ok tt,
      record db {
        connections = update (is_connection_of a) (seen_connection now heartbeat) db.connections;
        agents =
            update (λ (g : AgentEntity). g.id == a.id)
              (λ g. record g {
                last_seen_at = greatest g.last_seen_at now;
                status = wake_status g.status;
              })
              db.agents;
      },
    )
    else (ok tt, db)

-- `lastHeartbeatAt ?? lastSeenAt ?? agent.lastSeenAt`
abbrev pub last_presence_at : AgentConnectionEntity → AgentEntity → Option ℕ
last_presence_at c g = elim c.last_heartbeat_at [
  | some t ↦ some t
  | none ↦ elim c.last_seen_at [ some t ↦ some t | none ↦ g.last_seen_at ]
]

abbrev pub is_present : AgentStatus → Bool
is_present AgentStatus.online = true
is_present AgentStatus.debating = true
is_present _ = false

-- A clock behind the last sign of life gives a negative age in the source and 0 here; the limit is
-- positive, so the test is the same.
unfoldable pub should_mark_agent_offline :
    Environment → ℕ → AgentConnectionEntity → AgentEntity → Bool
should_mark_agent_offline e now c g = is_present g.status && elim (last_presence_at c g) [
  | none ↦ false
  | some t ↦ leb (presence_stale_after_ms e) (now - t)
]

-- The connection's agent exists and is to be marked.
abbrev pub is_stale : Environment → ℕ → List AgentEntity → AgentConnectionEntity → Bool
is_stale e now agents c = elim (find_one (λ (g : AgentEntity). g.id == c.agent_id) agents) [
  | none ↦ false
  | some g ↦ should_mark_agent_offline e now c g
]

-- The agents of stale connections.
unfoldable pub stale_agent_ids :
    Environment → ℕ → List AgentEntity → List AgentConnectionEntity → List ℕ
stale_agent_ids e now agents [] = []
stale_agent_ids e now agents (c ∷ cs) =
    let rest = stale_agent_ids e now agents cs in
    if is_stale e now agents c then c.agent_id ∷ rest else rest

unfoldable pub sweep_stale_agent_presence : Environment → ℕ → M (List ℕ)
unfolding stale_agent_ids
sweep_stale_agent_presence e now db =
    let ids = unique_from [] (stale_agent_ids e now db.agents db.connections) in
    (
      ok ids,
      record db {
        agents =
            update (λ (g : AgentEntity). exists (λ i. i == g.id) ids)
              (λ g. record g { status = AgentStatus.offline }) db.agents;
      },
    )
