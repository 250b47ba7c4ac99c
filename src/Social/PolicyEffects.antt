-- ===== src/Social/PolicyEffects.antt =====
-- What asking for a message writes, and what a block rule does.
use agentschat.Prelude.{ℕ, ◌≡◌, true, false, arith}
use agentschat.Prelude.Table.{exists}
use agentschat.Prelude.Rows.{exists-insert_row}
use agentschat.Prelude.Action.{is_ok}
use agentschat.Text.{Unknown, optional_string}
use agentschat.Domain.{same_type_refl, Subject}
use agentschat.Social.Store.{SocialDb, is_rule}
use agentschat.Social.Policy.{
  ensure_subject_exists, assert_human_recipient_allows_direct_message, assert_mode,
  assert_stranger_allowed, assert_agent_recipient_allows_direct_message, assert_sender_policy,
  ensure_recipient_has_not_blocked_actor, assert_direct_message_allowed, create_block_rule,
}
use agentschat.Social.EnsuredPolicy.{policy_of, IsEnsured, ensure_agent_policy-IsEnsured}
use agentschat.Social.PolicyLaws.{
  may_message, assert_sender_policy-IsEnsured, assert_direct_message_allowed-may_message,
}

assert_stranger_allowed-IsEnsured :
    (db : SocialDb) (actor : Subject) (i : ℕ) → IsEnsured db (assert_stranger_allowed i actor db).1
assert_stranger_allowed-IsEnsured db actor i =
    let h = ensure_agent_policy-IsEnsured i db in
    record {
      users_same = unfold assert_stranger_allowed assert_mode in ground (arith, h.users_same);
      agents_same = unfold assert_stranger_allowed assert_mode in ground (arith, h.agents_same);
      rules_same = unfold assert_stranger_allowed assert_mode in ground (arith, h.rules_same);
      follows_same = unfold assert_stranger_allowed assert_mode in ground (arith, h.follows_same);
      policies_same =
          λ j. unfold assert_stranger_allowed assert_mode in ground (arith, h.policies_same j);
    }

assert_agent_recipient-policies :
    (db : SocialDb) (actor : Subject) (i j : ℕ)
    → policy_of j (assert_agent_recipient_allows_direct_message i actor db).1 ≡ policy_of j db
unfolding assert_agent_recipient_allows_direct_message
assert_agent_recipient-policies db actor i j =
    ground (arith, (assert_stranger_allowed-IsEnsured db actor i).policies_same j)

-- Asking whether a message is allowed changes no agent's policy, also where it inserts the default
-- one, and whether the message is then allowed or refused.
assert_direct_message_allowed-policy_of :
    (db : SocialDb) (actor recipient : Subject) (i : ℕ)
    → policy_of i (assert_direct_message_allowed actor recipient db).1 ≡ policy_of i db
unfolding assert_direct_message_allowed ensure_recipient_has_not_blocked_actor
    assert_human_recipient_allows_direct_message
assert_direct_message_allowed-policy_of db actor recipient i = ground (
  arith,
  (assert_sender_policy-IsEnsured actor db).policies_same i,
  assert_agent_recipient-policies (assert_sender_policy actor db).1 actor recipient.id i,
)

create_block_rule-rules :
    (db : SocialDb) (scope blocked : Subject) (reason : Unknown)
    → is_ok (create_block_rule scope blocked reason db).0 ≡ true
    → exists (is_rule scope blocked) (create_block_rule scope blocked reason db).1.block_rules
      ≡ true
unfolding create_block_rule ensure_subject_exists
create_block_rule-rules db scope blocked reason h = ground (
  arith,
  same_type_refl scope.type,
  same_type_refl blocked.type,
  exists-insert_row (is_rule scope blocked) db.block_rules
      (record { scope = scope; blocked = blocked; reason = optional_string reason }),
)

-- Once a block rule has been saved, no message from the blocked subject to the one that blocked it
-- is let through.
create_block_rule-blocks :
    (db : SocialDb) (scope blocked : Subject) (reason : Unknown)
    → is_ok (create_block_rule scope blocked reason db).0 ≡ true
    → is_ok
        (assert_direct_message_allowed blocked scope
          (create_block_rule scope blocked reason db).1).0
      ≡ false
unfolding may_message
create_block_rule-blocks db scope blocked reason h =
    let after = (create_block_rule scope blocked reason db).1 in
    ground (
      arith,
      create_block_rule-rules db scope blocked reason h,
      assert_direct_message_allowed-may_message after blocked scope,
    )
