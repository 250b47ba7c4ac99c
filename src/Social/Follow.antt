-- ===== src/Social/Follow.antt =====
-- follow.service.ts: follows of agents, forum topics and debates. A target's type and id were
-- checked by `parseTarget`; its texts are not modelled.
use agentschat.Prelude.{
  ℕ, suc, ◌+◌, ◌-◌, Bool, true, false, not, ◌||◌, Option, none, some, ◌==◌, if◌then◌else◌,
}
use agentschat.Prelude.Table.{find_one, exists, update, insert_row, delete}
use agentschat.Prelude.Action.{pure, throw, gets, throw_if, or_throw, ◌>>=◌, ◌>>◌, ok}
use agentschat.Domain.{SubjectType, Subject, is_suspended}
use agentschat.Social.Store.{
  FollowTargetType, FollowTargetReference, FollowEntity, ForumTopicViewEntity, SocialDb, Refusal, M,
  agent_by_id, is_rule, is_follow, user_exists, agent_exists,
}

unfoldable pub assert_actor_exists : Subject → M (Unit {0})
assert_actor_exists actor = elim actor.type [
  | SubjectType.human ↦ do
    there ← gets (user_exists actor.id)
    throw_if (not there) Refusal.human_not_found
  | SubjectType.agent ↦ do
    found ← gets (λ db. find_one (agent_by_id actor.id) db.agents)
    agent ← or_throw found Refusal.agent_not_found
    throw_if (is_suspended agent.status) Refusal.suspended_follower
]

unfoldable pub assert_target_exists : FollowTargetReference → M (Unit {0})
assert_target_exists target = elim target.type [
  | FollowTargetType.agent ↦ do
    there ← gets (agent_exists target.id)
    throw_if (not there) Refusal.agent_not_found
  | FollowTargetType.topic ↦ do
    there ← gets (λ db. exists (λ t. t == target.id) db.forum_topics)
    throw_if (not there) Refusal.topic_not_found
  | FollowTargetType.debate ↦ do
    there ← gets (λ db. exists (λ d. d == target.id) db.debates)
    throw_if (not there) Refusal.debate_not_found
]

abbrev pub is_topic : FollowTargetType → Bool
is_topic FollowTargetType.topic = true
is_topic _ = false

-- A human follows debates only.
unfoldable pub assert_target_actor_compatibility : Subject → FollowTargetReference → M (Unit {0})
assert_target_actor_compatibility actor target = elim actor.type [
  | SubjectType.agent ↦ pure tt
  | SubjectType.human ↦ elim target.type [
    | FollowTargetType.agent ↦ throw Refusal.agent_must_initiate
    | FollowTargetType.topic ↦ throw Refusal.topic_needs_agent
    | FollowTargetType.debate ↦ pure tt
  ]
]

abbrev agent_at : ℕ → Subject
agent_at i = record { type = SubjectType.agent; id = i }

abbrev is_itself : Subject → ℕ → Bool
is_itself actor i = elim actor.type [
  | SubjectType.human ↦ false
  | SubjectType.agent ↦ actor.id == i
]

abbrev blocked_either_way : Subject → ℕ → SocialDb → Bool
blocked_either_way actor i db =
    exists (is_rule actor (agent_at i)) db.block_rules
    || exists (is_rule (agent_at i) actor) db.block_rules

unfoldable pub assert_follow_allowed : Subject → FollowTargetReference → M (Unit {0})
assert_follow_allowed actor target = elim target.type [
  | FollowTargetType.agent ↦ do
    throw_if (is_itself actor target.id) Refusal.self_follow
    blocked ← gets (blocked_either_way actor target.id)
    throw_if blocked Refusal.follow_blocked
  | FollowTargetType.topic ↦ pure tt
  | FollowTargetType.debate ↦ pure tt
]

abbrev pub view_of : ℕ → ForumTopicViewEntity → Bool
view_of i v = v.thread_id == i

unfoldable pub add_follow : Subject → FollowTargetReference → SocialDb → SocialDb
add_follow actor target db = record db {
  follows = insert_row db.follows (record { id = db.next_id; follower = actor; target = target });
  next_id = suc db.next_id;
}

abbrev increment_follow_count : ℕ → SocialDb → SocialDb
increment_follow_count i db = record db {
  topic_views =
      update (view_of i) (λ v. record v { follow_count = v.follow_count + 1 }) db.topic_views;
}

unfoldable pub save_follow : Subject → FollowTargetReference → Option FollowEntity → M (Unit {0})
unfolding add_follow
save_follow actor target (some f) db = (ok tt, db)
save_follow actor target none db = (
  ok tt,
  if is_topic target.type
      then increment_follow_count target.id (add_follow actor target db)
      else add_follow actor target db,
)

-- `buildFollowState` repeats the request; what it adds is whether the actor now follows.
unfoldable pub follow : Subject → FollowTargetReference → M Bool
follow actor target = do
  assert_actor_exists actor
  assert_target_exists target
  assert_target_actor_compatibility actor target
  assert_follow_allowed actor target
  existing ← gets (λ db. find_one (is_follow actor target) db.follows)
  save_follow actor target existing
  pure true

abbrev has_follow_count : Option ForumTopicViewEntity → Bool
has_follow_count none = false
has_follow_count (some v) = not (v.follow_count == 0)

abbrev decrement_follow_count : ℕ → SocialDb → SocialDb
decrement_follow_count i db =
    if has_follow_count (find_one (view_of i) db.topic_views)
    then record db {
      topic_views =
          update (view_of i) (λ v. record v { follow_count = v.follow_count - 1 }) db.topic_views;
    }
    else db

abbrev remove_follow : ℕ → SocialDb → SocialDb
remove_follow i db = record db { follows = delete (λ f. f.id == i) db.follows }

unfoldable pub drop_follow : FollowTargetReference → Option FollowEntity → M (Unit {0})
drop_follow target none db = (ok tt, db)
drop_follow target (some f) db = (
  ok tt,
  if is_topic target.type
      then decrement_follow_count target.id (remove_follow f.id db)
      else remove_follow f.id db,
)

unfoldable pub unfollow : Subject → FollowTargetReference → M Bool
unfollow actor target = do
  assert_actor_exists actor
  assert_target_exists target
  assert_target_actor_compatibility actor target
  existing ← gets (λ db. find_one (is_follow actor target) db.follows)
  drop_follow target existing
  pure false

unfoldable pub read_state : Subject → FollowTargetReference → M Bool
read_state actor target = do
  assert_actor_exists actor
  assert_target_exists target
  assert_target_actor_compatibility actor target
  gets (λ db. exists (is_follow actor target) db.follows)
