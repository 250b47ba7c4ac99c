-- ===== src/Moderation/Verdict.antt =====
-- Whom `assertActorAllowed` lets through, as one condition on the actions against the actor.
use mathlib.Core.List.{reverse, reverse_aux}
use agentschat.Prelude.{
  ℕ, ◌+◌, ◌*◌, ◌≡◌, refl, Bool, true, false, not, ◌&&◌, ◌||◌, some, none, List, [], ◌∷◌, arith,
  ◌==◌, ltb, or_else,
}
use agentschat.Prelude.Table.{find_one, find_by, exists, insert_by, order_by}
use agentschat.Prelude.Action.{is_ok}
use agentschat.Domain.{SubjectType, Subject, is_suspended, same_subject}
use agentschat.Debate.Store.{Db, AgentEntity, ModerationKind, ModerationActionEntity}
use agentschat.Moderation.Actor.{
  is_still_active, latest_event_at, active_since, assert_actions, assert_actor_allowed,
}

-- The action refuses the actor at this time.
abbrev pub refuses : ℕ → Subject → Db → ModerationActionEntity → Bool
refuses now actor db a = is_still_active now a && elim a.action [
  | ModerationKind.suspend ↦ true
  | ModerationKind.mute ↦ true
  | ModerationKind.rate_limit ↦
      ltb now (
        active_since a (latest_event_at actor db.events) + or_else a.min_interval_seconds 60 * 1000)
  | ModerationKind.other ↦ false
]

assert_actions-result :
    (now : ℕ) (actor : Subject) (xs : List ModerationActionEntity) (db : Db)
    → is_ok (assert_actions now actor xs db).0 ≡ not (exists (refuses now actor db) xs)
unfolding assert_actions exists
assert_actions-result now actor [] db = refl
assert_actions-result now actor (a ∷ rest) db =
    ground (arith, assert_actions-result now actor rest db)

module _ {A : Type 0} (p : A → Bool) where
  exists-insert_by :
      (key : A → ℕ) (x : A) (xs : List A) → exists p (insert_by key x xs) ≡ p x || exists p xs
  unfolding exists insert_by
  exists-insert_by key x [] = refl
  exists-insert_by key x (y ∷ ys) = ground (arith, exists-insert_by key x ys)

  exists-order_by : (key : A → ℕ) (xs : List A) → exists p (order_by key xs) ≡ exists p xs
  unfolding exists order_by
  exists-order_by key [] = refl
  exists-order_by key (x ∷ xs) =
      ground (arith, exists-insert_by key x (order_by key xs), exists-order_by key xs)

  exists-find_by :
      (q : A → Bool) (xs : List A) → exists p (find_by q xs) ≡ exists (λ a. q a && p a) xs
  unfolding exists find_by
  exists-find_by q [] = refl
  exists-find_by q (x ∷ xs) = ground (arith, exists-find_by q xs)

  exists-reverse_aux : (xs ys : List A) → exists p (reverse_aux xs ys) ≡ exists p xs || exists p ys
  unfolding exists
  exists-reverse_aux [] ys = refl
  exists-reverse_aux (x ∷ xs) ys = ground (arith, exists-reverse_aux xs (x ∷ ys))

  exists-reverse : (xs : List A) → exists p (reverse xs) ≡ exists p xs
  unfolding exists
  exists-reverse xs = ground (arith, exists-reverse_aux xs [])

-- The actor is a human, or an agent that exists and is not suspended.
abbrev pub in_good_standing : Subject → Db → Bool
in_good_standing actor db = elim actor.type [
  | SubjectType.human ↦ true
  | SubjectType.agent ↦ elim (find_one (λ (a : AgentEntity). a.id == actor.id) db.agents) [
    | none ↦ false
    | some a ↦ not (is_suspended a.status)
  ]
]

-- An actor is let through exactly when it is in good standing and no action against it refuses it
-- now; the order in which the actions are looked at does not matter.
pub assert_actor_allowed-refuses :
    (now : ℕ) (actor : Subject) (db : Db)
    → is_ok (assert_actor_allowed now actor db).0
      ≡ in_good_standing actor db
        && not (exists (λ a. same_subject a.target actor && refuses now actor db a) db.actions)
unfolding assert_actor_allowed
assert_actor_allowed-refuses now actor db =
    let mine = find_by (λ (a : ModerationActionEntity). same_subject a.target actor) db.actions in
    let sorted = order_by (λ (a : ModerationActionEntity). a.created_at) mine in
    ground (
      arith,
      assert_actions-result now actor (reverse sorted) db,
      exists-reverse (refuses now actor db) sorted,
      exists-order_by (refuses now actor db) (λ a. a.created_at) mine,
      exists-find_by (refuses now actor db) (λ a. same_subject a.target actor) db.actions,
    )
