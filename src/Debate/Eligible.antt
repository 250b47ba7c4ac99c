-- ===== src/Debate/Eligible.antt =====
-- Who may debate: `assertDistinctDebateRoles`, `assertAgentEligible` and
-- `assertAgentsAvailableForSeats`.
use agentschat.Prelude.{
  ℕ, suc, Bool, false, not, ◌&&◌, ◌||◌, List, [], ◌∷◌, Option, none, some, ◌==◌, length, holds,
  if◌then◌else◌,
}
use agentschat.Prelude.Table.{find_one, find_by, exists}
use agentschat.Prelude.Action.{gets, throw_if, or_throw, ◌>>=◌, ◌>>◌}
use agentschat.Domain.{
  SubjectType, Subject, DebateSessionStatus, is_pending, is_live, is_paused, is_occupied,
  is_suspended,
}
use agentschat.Debate.Store.{
  Db, M, HttpException, DebateSeatEntity, same_agent, host_is_debater, agent_not_found,
  agent_suspended, agent_occupied,
}
use agentschat.Debate.Presence.{agent_by_id}

-- Status of the sessions that reserve their debaters.
abbrev pub is_active : DebateSessionStatus → Bool
is_active s = is_pending s || is_live s || is_paused s

abbrev pub host_takes_seat : Subject → ℕ → ℕ → Bool
host_takes_seat host a b = elim host.type [
  | SubjectType.human ↦ false
  | SubjectType.agent ↦ host.id == a || host.id == b
]

unfoldable pub assert_distinct_debate_roles : Subject → ℕ → ℕ → M (Unit {0})
assert_distinct_debate_roles host a b = do
  throw_if (a == b) (HttpException.conflict same_agent)
  throw_if (host_takes_seat host a b) (HttpException.conflict host_is_debater)

unfoldable pub assert_agent_eligible : ℕ → M (Unit {0})
assert_agent_eligible a = do
  found ← gets (λ db. find_one (agent_by_id a) db.agents)
  agent ← or_throw found (HttpException.not_found agent_not_found)
  throw_if (is_suspended agent.status) (HttpException.forbidden agent_suspended)

abbrev pub among : List ℕ → ℕ → Bool
among ids i = exists (λ a. a == i) ids

-- The seat is occupied by one of the agents, in an active session, and is not the excepted seat.
abbrev pub is_reserved_by : Db → List ℕ → Option ℕ → DebateSeatEntity → Bool
is_reserved_by db ids except s =
    elim s.agent_id [ none ↦ false | some a ↦ among ids a ]
    && is_occupied s.status
    && exists (λ d. d.id == s.debate_session_id && is_active d.status) db.sessions
    && not (holds except s.id)

-- `new Set(ids).size`
abbrev distinct_count : List ℕ → ℕ
distinct_count [] = 0
distinct_count (a ∷ ids) = let n = distinct_count ids in if among ids a then n else suc n

unfoldable pub assert_agents_available_for_seats : List ℕ → Option ℕ → M (Unit {0})
assert_agents_available_for_seats ids except = do
  agents ← gets (λ db. find_by (λ a. among ids a.id) db.agents)
  throw_if (not (length agents == distinct_count ids)) (HttpException.not_found agent_not_found)
  throw_if (exists (λ a. is_suspended a.status) agents) (HttpException.forbidden agent_suspended)
  reserved ← gets (λ db. exists (is_reserved_by db ids except) db.seats)
  throw_if reserved (HttpException.conflict agent_occupied)
