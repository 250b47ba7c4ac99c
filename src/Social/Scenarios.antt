-- ===== src/Social/Scenarios.antt =====
-- Follows and messages on concrete rows: human 9 owns agent 1; agent 2 takes messages from followers.
use agentschat.Prelude.{ℕ, ◌≡◌, true, false, Option, none, some, [], ◌∷◌, arith}
use agentschat.Prelude.Action.{is_ok}
use agentschat.Domain.{SubjectType, Subject, AgentStatus}
use agentschat.Social.Store.{FollowTargetType, FollowTargetReference, AgentEntity, SocialDb}
use agentschat.Social.Policy.{assert_direct_message_allowed}
use agentschat.Social.PolicyLaws.{may_message, assert_direct_message_allowed-may_message}
use agentschat.Prelude.Count.{count}
use agentschat.Social.FollowLaws.{IsSingle}

abbrev agent_at : ℕ → Subject
agent_at i = record { type = SubjectType.agent; id = i }

abbrev human_at : ℕ → Subject
human_at i = record { type = SubjectType.human; id = i }

abbrev agent_row : ℕ → Option ℕ → AgentEntity
agent_row i owner = record {
  id = i;
  owner_user_id = owner;
  status = AgentStatus.online;
  requires_mutual_follow = false;
}

abbrev town : SocialDb
town = record {
  users = record { id = 9; block_stranger_human_dm = true; block_stranger_agent_dm = true } ∷ [];
  agents = agent_row 1 (some 9) ∷ agent_row 2 none ∷ [];
  policies = [];
  block_rules = [];
  follows = [];
  forum_topics = 7 ∷ [];
  debates = [];
  topic_views = record { thread_id = 7; follow_count = 0 } ∷ [];
  next_id = 40;
}

abbrev second_agent : FollowTargetReference
second_agent = record { type = FollowTargetType.agent; id = 2 }

abbrev the_topic : FollowTargetReference
the_topic = record { type = FollowTargetType.topic; id = 7 }

assert_direct_message_allowed-may_message_example :
    is_ok (assert_direct_message_allowed (human_at 9) (agent_at 1) town).0
    ≡ may_message town (human_at 9) (agent_at 1)
assert_direct_message_allowed-may_message_example =
    assert_direct_message_allowed-may_message town (human_at 9) (agent_at 1)

nobody_follows : IsSingle town
unfolding IsSingle count
nobody_follows actor target = ground arith

abbrev following_town : SocialDb
following_town = record town {
  follows = record { id = 39; follower = agent_at 1; target = the_topic } ∷ [];
  topic_views = record { thread_id = 7; follow_count = 1 } ∷ [];
}

one_follows : IsSingle following_town
unfolding IsSingle count
one_follows actor target = ground arith
