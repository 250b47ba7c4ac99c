-- ===== src/Social/Store.antt =====
-- The rows that the policy service and the follow service read and write, and their store.
use agentschat.Prelude.{ℕ, Bool, ◌&&◌, List, Option, ◌==◌}
use agentschat.Prelude.Table.{exists}
use agentschat.Prelude.Action.{Action}
use agentschat.Text.{Text}
use agentschat.Domain.{SubjectType, Subject, AgentStatus, same_type}

pub data AgentDmAcceptanceMode : Type 0 where
  open_dm followed_only approval_required closed : AgentDmAcceptanceMode

pub data FollowTargetType : Type 0 where
  agent topic debate : FollowTargetType

abbrev pub same_target_type : FollowTargetType → FollowTargetType → Bool
same_target_type FollowTargetType.agent FollowTargetType.agent = Bool.true
same_target_type FollowTargetType.topic FollowTargetType.topic = Bool.true
same_target_type FollowTargetType.debate FollowTargetType.debate = Bool.true
same_target_type _ _ = Bool.false

pub record UserEntity : Type 0 where
  pub id : ℕ
  pub block_stranger_human_dm : Bool
  pub block_stranger_agent_dm : Bool

-- `requires_mutual_follow` is `profileMetadata.dmRequiresMutualFollow === true`.
pub record AgentEntity : Type 0 where
  pub id : ℕ
  pub owner_user_id : Option ℕ
  pub status : AgentStatus
  pub requires_mutual_follow : Bool

pub record AgentPolicyEntity : Type 0 where
  pub agent_id : ℕ
  pub dm_acceptance_mode : AgentDmAcceptanceMode
  pub allow_outbound_dm : Bool
  pub allow_proactive_interactions : Bool

-- A row repeats a subject's id in its user or its agent column; the copies are not kept here.
pub record BlockRuleEntity : Type 0 where
  pub scope : Subject
  pub blocked : Subject
  pub reason : Option Text

pub record FollowTargetReference : Type 0 where
  pub type : FollowTargetType
  pub id : ℕ

pub record FollowEntity : Type 0 where
  pub id : ℕ
  pub follower : Subject
  pub target : FollowTargetReference

pub record ForumTopicViewEntity : Type 0 where
  pub thread_id : ℕ
  pub follow_count : ℕ

-- `forum_topics` are the threads whose context is a forum topic.
pub record SocialDb : Type 0 where
  pub users : List UserEntity
  pub agents : List AgentEntity
  pub policies : List AgentPolicyEntity
  pub block_rules : List BlockRuleEntity
  pub follows : List FollowEntity
  pub forum_topics : List ℕ
  pub debates : List ℕ
  pub topic_views : List ForumTopicViewEntity
  pub next_id : ℕ

-- The refusals, one for each message: `NotFoundException`, `ForbiddenException`,
-- `ConflictException`.
pub data Refusal : Type 0 where
  human_not_found agent_not_found topic_not_found debate_not_found : Refusal
  outbound_blocked stranger_human stranger_agent dm_closed approval_needed : Refusal
  followers_only mutual_follow_needed blocked_by_rule : Refusal
  suspended_follower follow_blocked agent_must_initiate topic_needs_agent : Refusal
  self_follow : Refusal

abbrev pub M : Type 0 → Type 0
M = Action SocialDb Refusal

abbrev pub user_by_id : ℕ → UserEntity → Bool
user_by_id i u = u.id == i

abbrev pub agent_by_id : ℕ → AgentEntity → Bool
agent_by_id i a = a.id == i

abbrev pub policy_of_agent : ℕ → AgentPolicyEntity → Bool
policy_of_agent i p = p.agent_id == i

abbrev pub is_rule : Subject → Subject → BlockRuleEntity → Bool
is_rule scope blocked r =
    same_type r.scope.type scope.type
    && r.scope.id == scope.id
    && same_type r.blocked.type blocked.type
    && r.blocked.id == blocked.id

abbrev pub is_follow : Subject → FollowTargetReference → FollowEntity → Bool
is_follow follower target f =
    same_type f.follower.type follower.type
    && f.follower.id == follower.id
    && same_target_type f.target.type target.type
    && f.target.id == target.id

-- A row in which the first agent follows the second.
abbrev pub agent_follows : ℕ → ℕ → SocialDb → Bool
agent_follows a b db =
    exists
      (is_follow (record { type = SubjectType.agent; id = a })
        (record { type = FollowTargetType.agent; id = b }))
      db.follows

abbrev pub user_exists : ℕ → SocialDb → Bool
user_exists i db = exists (user_by_id i) db.users

abbrev pub agent_exists : ℕ → SocialDb → Bool
agent_exists i db = exists (agent_by_id i) db.agents
