-- ===== src/Social/EnsuredPolicy.antt =====
-- What `ensureAgentPolicy` leaves in the store.
use agentschat.Prelude.{
  ℕ, ◌≡◌, inl, inr, none, ◌==◌, arith, or_else, if◌then◌else◌, Option-cases, Bool-cases,
}
use agentschat.Prelude.Table.{find_one, insert_row}
use agentschat.Prelude.Rows.{find_one-insert_row}
use agentschat.Prelude.Action.{ok, err}
use agentschat.Social.Store.{AgentPolicyEntity, SocialDb, Refusal, policy_of_agent, agent_exists}
use agentschat.Social.Policy.{
  default_policy, keep_or_insert_policy, ensure_subject_exists, ensure_agent_policy,
}

-- The policy that counts for an agent.
abbrev pub policy_of : ℕ → SocialDb → AgentPolicyEntity
policy_of i db = or_else (find_one (policy_of_agent i) db.policies) (default_policy i)

-- What a store looks like after `ensureAgentPolicy` for one agent.
pub record IsEnsured (db db' : SocialDb) : Type 0 where
  pub users_same : db'.users ≡ db.users
  pub agents_same : db'.agents ≡ db.agents
  pub rules_same : db'.block_rules ≡ db.block_rules
  pub follows_same : db'.follows ≡ db.follows
  pub policies_same : (i : ℕ) → policy_of i db' ≡ policy_of i db

policy_of-insert_row :
    (a i : ℕ) (db : SocialDb)
    → find_one (policy_of_agent a) db.policies ≡ none
    → or_else
        (find_one (policy_of_agent i) (insert_row db.policies (default_policy a)))
        (default_policy i)
      ≡ policy_of i db
policy_of-insert_row a i db e = elim (Bool-cases (a == i)) [
  | inl same ↦
      ground (arith, find_one-insert_row (policy_of_agent i) db.policies (default_policy a))
  | inr other ↦
      ground (arith, find_one-insert_row (policy_of_agent i) db.policies (default_policy a))
]

pub ensure_agent_policy-result :
    (a : ℕ) (db : SocialDb)
    → (ensure_agent_policy a db).0
      ≡ (if agent_exists a db then ok (policy_of a db) else err Refusal.agent_not_found)
unfolding ensure_agent_policy ensure_subject_exists keep_or_insert_policy
ensure_agent_policy-result a db = ground arith

ensure_agent_policy-policies :
    (a i : ℕ) (db : SocialDb) → policy_of i (ensure_agent_policy a db).1 ≡ policy_of i db
unfolding ensure_agent_policy ensure_subject_exists keep_or_insert_policy
ensure_agent_policy-policies a i db =
    elim (Option-cases (find_one (policy_of_agent a) db.policies)) [
      | inl missing ↦ ground (arith, policy_of-insert_row a i db missing)
      | inr (p, e) ↦ ground arith
    ]

pub ensure_agent_policy-IsEnsured :
    (a : ℕ) (db : SocialDb) → IsEnsured db (ensure_agent_policy a db).1
ensure_agent_policy-IsEnsured a db = record {
  users_same =
      unfold ensure_agent_policy ensure_subject_exists keep_or_insert_policy in ground arith;
  agents_same =
      unfold ensure_agent_policy ensure_subject_exists keep_or_insert_policy in ground arith;
  rules_same =
      unfold ensure_agent_policy ensure_subject_exists keep_or_insert_policy in ground arith;
  follows_same =
      unfold ensure_agent_policy ensure_subject_exists keep_or_insert_policy in ground arith;
  policies_same = λ i. ensure_agent_policy-policies a i db;
}
