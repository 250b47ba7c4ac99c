-- ===== src/Social/Policy.antt =====
-- policy.service.ts: the safety policies of humans and agents, block rules, and the decision
-- whether a direct message may be sent.
use agentschat.Prelude.{
  ℕ, Bool, true, false, not, ◌&&◌, ◌||◌, Option, none, some, ◌==◌, holds, or_else, is_some,
  if◌then◌else◌,
}
use agentschat.Prelude.Table.{find_one, update, insert_row}
use agentschat.Prelude.Action.{pure, gets, throw_if, or_throw, ◌>>=◌, ◌>>◌, ok}
use agentschat.Text.{Unknown, optional_string}
use agentschat.Domain.{SubjectType, Subject}
use agentschat.Social.Store.{
  AgentDmAcceptanceMode, UserEntity, AgentEntity, AgentPolicyEntity, SocialDb, Refusal, M,
  user_by_id, agent_by_id, policy_of_agent, is_rule, agent_follows, user_exists, agent_exists,
}

pub record HumanSafetyPolicy : Type 0 where
  pub block_stranger_human_dm : Bool
  pub block_stranger_agent_dm : Bool

-- `Partial<HumanSafetyPolicy>`
pub record HumanUpdates : Type 0 where
  pub block_stranger_human_dm : Option Bool
  pub block_stranger_agent_dm : Option Bool

unfoldable pub read_human_safety_policy : ℕ → M HumanSafetyPolicy
read_human_safety_policy i = do
  found ← gets (λ db. find_one (user_by_id i) db.users)
  user ← or_throw found Refusal.human_not_found
  pure (record {
    block_stranger_human_dm = user.block_stranger_human_dm;
    block_stranger_agent_dm = user.block_stranger_agent_dm;
  })

abbrev pub with_human_updates : HumanUpdates → UserEntity → UserEntity
with_human_updates updates u = record u {
  block_stranger_human_dm = or_else updates.block_stranger_human_dm u.block_stranger_human_dm;
  block_stranger_agent_dm = or_else updates.block_stranger_agent_dm u.block_stranger_agent_dm;
}

abbrev save_user : ℕ → (UserEntity → UserEntity) → M (Unit {0})
save_user i f db = (ok tt, record db { users = update (user_by_id i) f db.users })

unfoldable pub update_human_safety_policy : ℕ → HumanUpdates → M HumanSafetyPolicy
unfolding read_human_safety_policy
update_human_safety_policy i updates = do
  found ← gets (λ db. find_one (user_by_id i) db.users)
  user ← or_throw found Refusal.human_not_found
  save_user i (with_human_updates updates)
  read_human_safety_policy i

unfoldable pub ensure_subject_exists : Subject → M (Unit {0})
ensure_subject_exists s = elim s.type [
  | SubjectType.human ↦ do
    there ← gets (user_exists s.id)
    throw_if (not there) Refusal.human_not_found
  | SubjectType.agent ↦ do
    there ← gets (agent_exists s.id)
    throw_if (not there) Refusal.agent_not_found
]

-- The columns' defaults.
abbrev pub default_policy : ℕ → AgentPolicyEntity
default_policy i = record {
  agent_id = i;
  dm_acceptance_mode = AgentDmAcceptanceMode.followed_only;
  allow_outbound_dm = true;
  allow_proactive_interactions = true;
}

unfoldable pub keep_or_insert_policy : ℕ → Option AgentPolicyEntity → M AgentPolicyEntity
keep_or_insert_policy i (some p) db = (ok p, db)
keep_or_insert_policy i none db =
    (ok (default_policy i), record db { policies = insert_row db.policies (default_policy i) })

-- The agent's policy; a missing one is inserted.
unfoldable pub ensure_agent_policy : ℕ → M AgentPolicyEntity
unfolding ensure_subject_exists keep_or_insert_policy
ensure_agent_policy i = do
  ensure_subject_exists (record { type = SubjectType.agent; id = i })
  existing ← gets (λ db. find_one (policy_of_agent i) db.policies)
  keep_or_insert_policy i existing

pub record AgentSafetyPolicy : Type 0 where
  pub dm_acceptance_mode : AgentDmAcceptanceMode
  pub allow_outbound_dm : Bool
  pub allow_proactive_interactions : Bool

-- `Partial<AgentSafetyPolicy>`
pub record AgentUpdates : Type 0 where
  pub dm_acceptance_mode : Option AgentDmAcceptanceMode
  pub allow_outbound_dm : Option Bool
  pub allow_proactive_interactions : Option Bool

abbrev pub safety_policy : AgentPolicyEntity → AgentSafetyPolicy
safety_policy p = record {
  dm_acceptance_mode = p.dm_acceptance_mode;
  allow_outbound_dm = p.allow_outbound_dm;
  allow_proactive_interactions = p.allow_proactive_interactions;
}

unfoldable pub read_agent_safety_policy : ℕ → M AgentSafetyPolicy
read_agent_safety_policy i = do policy ← ensure_agent_policy i; pure (safety_policy policy)

abbrev pub with_agent_updates : AgentUpdates → AgentPolicyEntity → AgentPolicyEntity
with_agent_updates updates p = record p {
  dm_acceptance_mode = or_else updates.dm_acceptance_mode p.dm_acceptance_mode;
  allow_outbound_dm = or_else updates.allow_outbound_dm p.allow_outbound_dm;
  allow_proactive_interactions =
      or_else updates.allow_proactive_interactions p.allow_proactive_interactions;
}

unfoldable pub save_policy : ℕ → (AgentPolicyEntity → AgentPolicyEntity) → M (Unit {0})
save_policy i f db = (ok tt, record db { policies = update (policy_of_agent i) f db.policies })

unfoldable pub upsert_agent_safety_policy : ℕ → AgentUpdates → M AgentSafetyPolicy
unfolding save_policy
upsert_agent_safety_policy i updates = do
  policy ← ensure_agent_policy i
  save_policy i (with_agent_updates updates)
  read_agent_safety_policy i

abbrev save_rule : Subject → Subject → Unknown → M (Unit {0})
save_rule scope blocked reason db = (
  ok tt,
  record db {
    block_rules =
        insert_row db.block_rules
          (record { scope = scope; blocked = blocked; reason = optional_string reason });
  },
)

unfoldable pub create_block_rule : Subject → Subject → Unknown → M (Unit {0})
unfolding ensure_subject_exists
create_block_rule scope blocked reason = do
  ensure_subject_exists scope
  ensure_subject_exists blocked
  save_rule scope blocked reason

-- The body ignores both arguments and answers `false`.
unfoldable pub is_following_agent : ℕ → ℕ → Bool
is_following_agent human agent = false

-- A human actor never follows an agent.
unfoldable pub is_following_agent_actor : Subject → ℕ → SocialDb → Bool
is_following_agent_actor actor recipient db = elim actor.type [
  | SubjectType.human ↦ false
  | SubjectType.agent ↦ agent_follows actor.id recipient db
]

unfoldable pub is_agent_following_actor : ℕ → Subject → SocialDb → Bool
is_agent_following_actor agent actor db = elim actor.type [
  | SubjectType.human ↦ false
  | SubjectType.agent ↦ agent_follows agent actor.id db
]

unfoldable pub recipient_requires_mutual_agent_follow : ℕ → SocialDb → Bool
recipient_requires_mutual_agent_follow i db = elim (find_one (agent_by_id i) db.agents) [
  | none ↦ false
  | some a ↦ a.requires_mutual_follow
]

unfoldable pub assert_human_recipient_allows_direct_message : ℕ → Subject → M (Unit {0})
unfolding read_human_safety_policy is_following_agent
assert_human_recipient_allows_direct_message recipient actor = do
  policy ← read_human_safety_policy recipient
  elim actor.type [
    | SubjectType.human ↦
        throw_if (not (actor.id == recipient) && policy.block_stranger_human_dm)
          Refusal.stranger_human
    | SubjectType.agent ↦
        throw_if (policy.block_stranger_agent_dm && not (is_following_agent recipient actor.id))
          Refusal.stranger_agent
  ]

abbrev pub is_owner : Subject → AgentEntity → Bool
is_owner actor a = elim actor.type [
  | SubjectType.human ↦ holds a.owner_user_id actor.id
  | SubjectType.agent ↦ false
]

unfoldable pub assert_mode : AgentDmAcceptanceMode → Subject → ℕ → M (Unit {0})
assert_mode AgentDmAcceptanceMode.open_dm actor recipient db = (ok tt, db)
assert_mode AgentDmAcceptanceMode.closed actor recipient db = throw_if true Refusal.dm_closed db
assert_mode AgentDmAcceptanceMode.approval_required actor recipient db =
    throw_if true Refusal.approval_needed db
assert_mode AgentDmAcceptanceMode.followed_only actor recipient db =
    throw_if (not (is_following_agent_actor actor recipient db)) Refusal.followers_only db

-- What is asked of an actor that does not own the recipient.
unfoldable pub assert_stranger_allowed : ℕ → Subject → M (Unit {0})
unfolding assert_mode
assert_stranger_allowed recipient actor = do
  policy ← ensure_agent_policy recipient
  assert_mode policy.dm_acceptance_mode actor recipient
  asks_mutual ← gets (recipient_requires_mutual_agent_follow recipient)
  to ← gets (is_following_agent_actor actor recipient)
  back ← gets (is_agent_following_actor recipient actor)
  throw_if (asks_mutual && (not to || not back)) Refusal.mutual_follow_needed

unfoldable pub assert_agent_recipient_allows_direct_message : ℕ → Subject → M (Unit {0})
assert_agent_recipient_allows_direct_message recipient actor = do
  found ← gets (λ db. find_one (agent_by_id recipient) db.agents)
  agent ← or_throw found Refusal.agent_not_found
  if is_owner actor agent then pure tt else assert_stranger_allowed recipient actor

unfoldable pub ensure_recipient_has_not_blocked_actor : Subject → Subject → M (Unit {0})
ensure_recipient_has_not_blocked_actor recipient actor = do
  rule ← gets (λ db. find_one (is_rule recipient actor) db.block_rules)
  throw_if (is_some rule) Refusal.blocked_by_rule

unfoldable pub assert_sender_policy : Subject → M (Unit {0})
assert_sender_policy actor = elim actor.type [
  | SubjectType.human ↦ pure tt
  | SubjectType.agent ↦ do
    policy ← ensure_agent_policy actor.id
    throw_if (not policy.allow_outbound_dm) Refusal.outbound_blocked
]

unfoldable pub assert_direct_message_allowed : Subject → Subject → M (Unit {0})
unfolding ensure_recipient_has_not_blocked_actor
assert_direct_message_allowed actor recipient = do
  ensure_recipient_has_not_blocked_actor recipient actor
  assert_sender_policy actor
  elim recipient.type [
    | SubjectType.human ↦ assert_human_recipient_allows_direct_message recipient.id actor
    | SubjectType.agent ↦ assert_agent_recipient_allows_direct_message recipient.id actor
  ]
