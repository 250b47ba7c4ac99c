-- ===== src/Moderation/Actor.antt =====
-- `assertActorAllowed` of moderation.service.ts: a suspended agent, and an actor under an active
-- suspension, mute or rate limit, is refused before any operation.
use mathlib.Core.List.{reverse}
use agentschat.Prelude.{
  ℕ, zero, suc, ◌+◌, ◌*◌, Bool, true, false, List, [], ◌∷◌, Option, none, some, ltb, holds, or_else,
  ◌==◌, if◌then◌else◌,
}
use agentschat.Prelude.Table.{find_one, find_by, order_by}
use agentschat.Prelude.Action.{pure, throw, throw_if, or_throw, gets, ◌>>=◌, ◌>>◌}
use agentschat.Domain.{SubjectType, Subject, EventActorType, is_suspended, same_subject}
use agentschat.Debate.Store.{
  M, HttpException, EventEntity, ModerationKind, ModerationActionEntity, agent_not_found,
  agent_suspended, actor_suspended, actor_muted, rate_limited,
}

-- A missing or zero duration never runs out.
unfoldable pub is_still_active : ℕ → ModerationActionEntity → Bool
is_still_active now a = elim a.duration_seconds [
  | none ↦ true
  | some s ↦ elim s [ zero ↦ true | suc k ↦ ltb now (a.created_at + suc k * 1000) ]
]

abbrev authored_by : Subject → EventEntity → Bool
authored_by a e = elim a.type [
  | SubjectType.human ↦ elim e.actor_type [
    | EventActorType.human ↦ holds e.actor_user_id a.id
    | _ ↦ false
  ]
  | SubjectType.agent ↦ elim e.actor_type [
    | EventActorType.agent ↦ holds e.actor_agent_id a.id
    | _ ↦ false
  ]
]

-- When the actor's newest event occurred.
unfoldable pub latest_event_at : Subject → List EventEntity → Option ℕ
latest_event_at a [] = none
latest_event_at a (e ∷ es) =
    let rest = latest_event_at a es in
    if authored_by a e
    then some (elim rest [
      | none ↦ e.occurred_at
      | some t ↦ if ltb e.occurred_at t then t else e.occurred_at
    ])
    else rest

unfoldable pub active_since : ModerationActionEntity → Option ℕ → ℕ
active_since a none = a.created_at
active_since a (some t) = if ltb a.created_at t then t else a.created_at

abbrev apply_kind : ModerationKind → ℕ → Subject → ModerationActionEntity → M (Unit {0})
apply_kind ModerationKind.suspend now actor a = throw (HttpException.forbidden actor_suspended)
apply_kind ModerationKind.mute now actor a = throw (HttpException.forbidden actor_muted)
apply_kind ModerationKind.rate_limit now actor a = do
  latest ← gets (λ db. latest_event_at actor db.events)
  throw_if (ltb now (active_since a latest + or_else a.min_interval_seconds 60 * 1000))
      (HttpException.too_many_requests rate_limited)
apply_kind ModerationKind.other now actor a = pure tt

unfoldable pub assert_actions : ℕ → Subject → List ModerationActionEntity → M (Unit {0})
assert_actions now actor [] = pure tt
assert_actions now actor (a ∷ rest) = do
  if is_still_active now a then apply_kind a.action now actor a else pure tt
  assert_actions now actor rest

abbrev assert_agent_not_suspended : Subject → M (Unit {0})
assert_agent_not_suspended actor = elim actor.type [
  | SubjectType.human ↦ pure tt
  | SubjectType.agent ↦ do
    found ← gets (λ db. find_one (λ a. a.id == actor.id) db.agents)
    agent ← or_throw found (HttpException.not_found agent_not_found)
    throw_if (is_suspended agent.status) (HttpException.forbidden agent_suspended)
]

-- Newest action first.
unfoldable pub assert_actor_allowed : ℕ → Subject → M (Unit {0})
assert_actor_allowed now actor = do
  assert_agent_not_suspended actor
  actions ← gets λ db.
      reverse (order_by (λ a. a.created_at) (find_by (λ a. same_subject a.target actor) db.actions))
  assert_actions now actor actions
