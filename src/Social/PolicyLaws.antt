-- ===== src/Social/PolicyLaws.antt =====
-- The decisions of policy.service.ts.
use agentschat.Prelude.{
  ℕ, ◌≡◌, inl, inr, Bool, true, false, not, ◌&&◌, ◌||◌, none, some, ◌==◌, arith, Option-cases,
}
use agentschat.Prelude.Table.{find_one, exists}
use agentschat.Prelude.Rows.{find_one-exists, find_one-holds}
use agentschat.Prelude.Action.{is_ok}
use agentschat.Domain.{SubjectType, Subject}
use agentschat.Social.Store.{
  AgentDmAcceptanceMode, UserEntity, AgentEntity, SocialDb, user_by_id, agent_by_id, is_rule,
  agent_follows, agent_exists,
}
use agentschat.Social.Policy.{
  is_following_agent_actor, is_agent_following_actor, recipient_requires_mutual_agent_follow,
  assert_human_recipient_allows_direct_message, is_owner, assert_mode, assert_stranger_allowed,
  assert_agent_recipient_allows_direct_message, assert_sender_policy,
  ensure_recipient_has_not_blocked_actor, assert_direct_message_allowed,
}
use agentschat.Social.EnsuredPolicy.{
  policy_of, IsEnsured, ensure_agent_policy-result, ensure_agent_policy-IsEnsured,
}

-- The recipient's mode, for an actor that follows the recipient or does not.
abbrev accepts : AgentDmAcceptanceMode → Bool → Bool
accepts AgentDmAcceptanceMode.open_dm follows = true
accepts AgentDmAcceptanceMode.followed_only follows = follows
accepts AgentDmAcceptanceMode.approval_required follows = false
accepts AgentDmAcceptanceMode.closed follows = false

abbrev follows_agent : SocialDb → Subject → ℕ → Bool
follows_agent db actor i = elim actor.type [
  | SubjectType.human ↦ false
  | SubjectType.agent ↦ agent_follows actor.id i db
]

abbrev followed_by_agent : SocialDb → Subject → ℕ → Bool
followed_by_agent db actor i = elim actor.type [
  | SubjectType.human ↦ false
  | SubjectType.agent ↦ agent_follows i actor.id db
]

abbrev stranger_accepted : SocialDb → Subject → ℕ → AgentEntity → Bool
stranger_accepted db actor i a =
    accepts (policy_of i db).dm_acceptance_mode (follows_agent db actor i)
    && (not a.requires_mutual_follow || follows_agent db actor i && followed_by_agent db actor i)

abbrev human_accepts : Subject → UserEntity → Bool
human_accepts actor u = elim actor.type [
  | SubjectType.human ↦ actor.id == u.id || not u.block_stranger_human_dm
  | SubjectType.agent ↦ not u.block_stranger_agent_dm
]

abbrev sender_allowed : SocialDb → Subject → Bool
sender_allowed db actor = elim actor.type [
  | SubjectType.human ↦ true
  | SubjectType.agent ↦ agent_exists actor.id db && (policy_of actor.id db).allow_outbound_dm
]

abbrev recipient_accepts : SocialDb → Subject → Subject → Bool
recipient_accepts db actor recipient = elim recipient.type [
  | SubjectType.human ↦ elim (find_one (user_by_id recipient.id) db.users) [
    | none ↦ false
    | some u ↦ human_accepts actor u
  ]
  | SubjectType.agent ↦ elim (find_one (agent_by_id recipient.id) db.agents) [
    | none ↦ false
    | some a ↦ is_owner actor a || stranger_accepted db actor recipient.id a
  ]
]

-- The rule in one place: no block rule of the recipient against the actor, a sender whose policy
-- lets it write, and a recipient that accepts the sender.
unfoldable pub may_message : SocialDb → Subject → Subject → Bool
may_message db actor recipient =
    not (exists (is_rule recipient actor) db.block_rules)
    && sender_allowed db actor
    && recipient_accepts db actor recipient

recipient_accepts-IsEnsured :
    (db db' : SocialDb) (actor recipient : Subject)
    → IsEnsured db db'
    → recipient_accepts db' actor recipient ≡ recipient_accepts db actor recipient
recipient_accepts-IsEnsured db db' actor recipient h =
    elim (Option-cases (find_one (agent_by_id recipient.id) db.agents)) [
      | inl missing ↦ ground (arith, h.users_same, h.agents_same)
      | inr (a, e) ↦
          ground (arith, h.users_same, h.agents_same, h.follows_same, h.policies_same recipient.id)
    ]

assert_human_recipient-result :
    (db : SocialDb) (actor : Subject) (i : ℕ)
    → is_ok (assert_human_recipient_allows_direct_message i actor db).0
      ≡ elim (find_one (user_by_id i) db.users) [ none ↦ false | some u ↦ human_accepts actor u ]
unfolding assert_human_recipient_allows_direct_message
assert_human_recipient-result db actor i = elim (Option-cases (find_one (user_by_id i) db.users)) [
  | inl missing ↦ ground arith
  | inr (u, e) ↦ ground (arith, find_one-holds (user_by_id i) db.users u e)
]

-- The agents' side, with the result and the store of `ensureAgentPolicy` in the way.
assert_stranger_allowed-result :
    (db : SocialDb) (actor : Subject) (i : ℕ) (a : AgentEntity)
    → find_one (agent_by_id i) db.agents ≡ some a
    → is_ok (assert_stranger_allowed i actor db).0 ≡ stranger_accepted db actor i a
unfolding assert_stranger_allowed assert_mode is_following_agent_actor is_agent_following_actor
    recipient_requires_mutual_agent_follow
assert_stranger_allowed-result db actor i a e =
    let h = ensure_agent_policy-IsEnsured i db in
    ground (
      arith,
      ensure_agent_policy-result i db,
      find_one-exists (agent_by_id i) db.agents,
      h.agents_same,
      h.follows_same,
    )

assert_agent_recipient-result :
    (db : SocialDb) (actor : Subject) (i : ℕ)
    → is_ok (assert_agent_recipient_allows_direct_message i actor db).0
      ≡ elim (find_one (agent_by_id i) db.agents) [
        | none ↦ false
        | some a ↦ is_owner actor a || stranger_accepted db actor i a
      ]
unfolding assert_agent_recipient_allows_direct_message
assert_agent_recipient-result db actor i =
    elim (Option-cases (find_one (agent_by_id i) db.agents)) [
      | inl missing ↦ ground arith
      | inr (a, e) ↦ ground (arith, assert_stranger_allowed-result db actor i a e)
    ]

assert_sender_policy-result :
    (actor : Subject) (db : SocialDb)
    → is_ok (assert_sender_policy actor db).0 ≡ sender_allowed db actor
unfolding assert_sender_policy
assert_sender_policy-result actor db = ground (arith, ensure_agent_policy-result actor.id db)

pub assert_sender_policy-IsEnsured :
    (actor : Subject) (db : SocialDb) → IsEnsured db (assert_sender_policy actor db).1
assert_sender_policy-IsEnsured actor db =
    let h = ensure_agent_policy-IsEnsured actor.id db in
    record {
      users_same = unfold assert_sender_policy in ground (arith, h.users_same);
      agents_same = unfold assert_sender_policy in ground (arith, h.agents_same);
      rules_same = unfold assert_sender_policy in ground (arith, h.rules_same);
      follows_same = unfold assert_sender_policy in ground (arith, h.follows_same);
      policies_same = λ i. unfold assert_sender_policy in ground (arith, h.policies_same i);
    }

-- A direct message is let through exactly when the rule allows it, on every path: block rules, the
-- sender's policy, the human's and the agent's settings, ownership, follows and mutual follows, and
-- rows that are missing.
pub assert_direct_message_allowed-may_message :
    (db : SocialDb) (actor recipient : Subject)
    → is_ok (assert_direct_message_allowed actor recipient db).0 ≡ may_message db actor recipient
unfolding assert_direct_message_allowed ensure_recipient_has_not_blocked_actor may_message
assert_direct_message_allowed-may_message db actor recipient =
    let after = (assert_sender_policy actor db).1 in
    ground (
      arith,
      assert_sender_policy-result actor db,
      find_one-exists (is_rule recipient actor) db.block_rules,
      recipient_accepts-IsEnsured db after actor recipient
          (assert_sender_policy-IsEnsured actor db),
      assert_human_recipient-result after actor recipient.id,
      assert_agent_recipient-result after actor recipient.id,
    )
