-- ===== src/Social/FollowLaws.antt =====
-- What a follow and an unfollow do, and what they keep.
use agentschat.Prelude.{
  ◌≤◌, ◌≡◌, refl, inl, inr, Bool, true, false, none, some, arith, is_some, if◌then◌else◌,
  Option-cases, Bool-cases, ◌∙◌, List, [], ◌∷◌,
}
use agentschat.Prelude.Table.{find_one, exists, insert_row}
use agentschat.Prelude.Rows.{find_one-exists, exists-insert_row}
use agentschat.Prelude.Action.{ok, is_ok}
use agentschat.Domain.{same_type_refl, SubjectType, Subject, same_type}
use agentschat.Social.Store.{
  FollowTargetType, FollowTargetReference, FollowEntity, SocialDb, is_follow, same_target_type,
}
use agentschat.Social.Follow.{
  assert_actor_exists, assert_target_exists, assert_target_actor_compatibility,
  assert_follow_allowed, add_follow, save_follow, follow, read_state,
}
use agentschat.Prelude.Count.{count, count-insert_row, count-none}

same_target_type_refl : (t : FollowTargetType) → same_target_type t t ≡ true
same_target_type_refl FollowTargetType.agent = refl
same_target_type_refl FollowTargetType.topic = refl
same_target_type_refl FollowTargetType.debate = refl

abbrev new_follow : Subject → FollowTargetReference → SocialDb → FollowEntity
new_follow actor target db = record { id = db.next_id; follower = actor; target = target }

follow-follows :
    (actor : Subject) (target : FollowTargetReference) (db : SocialDb)
    → is_ok (follow actor target db).0 ≡ true
    → (follow actor target db).1.follows ≡ (
        if is_some (find_one (is_follow actor target) db.follows)
        then db.follows
        else insert_row db.follows (new_follow actor target db))
unfolding follow save_follow add_follow assert_actor_exists assert_target_exists
    assert_target_actor_compatibility assert_follow_allowed
follow-follows actor target db h = ground arith

follow-exists :
    (actor : Subject) (target : FollowTargetReference) (db : SocialDb)
    → is_ok (follow actor target db).0 ≡ true
    → exists (is_follow actor target) (follow actor target db).1.follows ≡ true
follow-exists actor target db h = ground (
  arith,
  follow-follows actor target db h,
  same_type_refl actor.type,
  same_target_type_refl target.type,
  find_one-exists (is_follow actor target) db.follows,
  exists-insert_row (is_follow actor target) db.follows (new_follow actor target db),
)

-- The rows that the checks of an actor and a target read are not the follows.
follow-read_state-checks :
    (actor : Subject) (target : FollowTargetReference) (db : SocialDb)
    → is_ok (follow actor target db).0 ≡ true
    → (read_state actor target (follow actor target db).1).0
      ≡ ok (exists (is_follow actor target) (follow actor target db).1.follows)
unfolding read_state follow save_follow add_follow assert_actor_exists assert_target_exists
    assert_target_actor_compatibility assert_follow_allowed
follow-read_state-checks actor target db h = ground arith

-- After a follow that was accepted, the actor is told that it follows the target.
follow-read_state :
    (actor : Subject) (target : FollowTargetReference) (db : SocialDb)
    → is_ok (follow actor target db).0 ≡ true
    → (read_state actor target (follow actor target db).1).0 ≡ ok true
follow-read_state actor target db h =
    ground (arith, follow-read_state-checks actor target db h, follow-exists actor target db h)

follow-known :
    (actor : Subject) (target : FollowTargetReference) (db : SocialDb) (f : FollowEntity)
    → is_ok (follow actor target db).0 ≡ true
    → find_one (is_follow actor target) db.follows ≡ some f
    → follow actor target db ≡ (ok true, db)
unfolding follow save_follow assert_actor_exists assert_target_exists
    assert_target_actor_compatibility assert_follow_allowed
follow-known actor target db f h e = ground arith

follow-again :
    (actor : Subject) (target : FollowTargetReference) (db : SocialDb)
    → is_ok (follow actor target db).0 ≡ true
    → is_ok (follow actor target (follow actor target db).1).0 ≡ true
unfolding follow save_follow add_follow assert_actor_exists assert_target_exists
    assert_target_actor_compatibility assert_follow_allowed
follow-again actor target db h = ground arith

-- Following a second time is accepted and changes nothing: no second row, and no second increment
-- of the topic's count.
follow-twice :
    (actor : Subject) (target : FollowTargetReference) (db : SocialDb)
    → is_ok (follow actor target db).0 ≡ true
    → follow actor target (follow actor target db).1 ≡ (ok true, (follow actor target db).1)
follow-twice actor target db h =
    let after = (follow actor target db).1 in
    elim (Option-cases (find_one (is_follow actor target) after.follows)) [
      | inl missing ↦ absurd (
          ground (
            arith,
            follow-exists actor target db h,
            find_one-exists (is_follow actor target) after.follows,
          ))
      | inr (f, e) ↦ follow-known actor target after f (follow-again actor target db h) e
    ]

follow-refused :
    (actor : Subject) (target : FollowTargetReference) (db : SocialDb)
    → is_ok (follow actor target db).0 ≡ false
    → (follow actor target db).1.follows ≡ db.follows
unfolding follow save_follow add_follow assert_actor_exists assert_target_exists
    assert_target_actor_compatibility assert_follow_allowed
follow-refused actor target db h = ground arith

same_type-≡ : (s t : SubjectType) → same_type s t ≡ true → s ≡ t
same_type-≡ SubjectType.human SubjectType.human h = refl
same_type-≡ SubjectType.agent SubjectType.agent h = refl
same_type-≡ SubjectType.human SubjectType.agent h = cc
same_type-≡ SubjectType.agent SubjectType.human h = cc

same_target_type-≡ : (s t : FollowTargetType) → same_target_type s t ≡ true → s ≡ t
same_target_type-≡ s t h = ground arith

-- A row fits at most one actor and target.
is_follow_unique :
    (actor a : Subject) (target t : FollowTargetReference) (row f : FollowEntity)
    → is_follow actor target row ≡ true
    → is_follow a t row ≡ true
    → is_follow a t f ≡ is_follow actor target f
is_follow_unique actor a target t row f h k = ground (
  arith,
  same_type-≡ row.follower.type actor.type,
  same_type-≡ row.follower.type a.type,
  same_target_type-≡ row.target.type target.type,
  same_target_type-≡ row.target.type t.type,
)

count-same :
    (p q : FollowEntity → Bool) (xs : List FollowEntity)
    → ((f : FollowEntity) → p f ≡ q f)
    → count p xs ≡ count q xs
unfolding count
count-same p q [] h = refl
count-same p q (x ∷ xs) h = ground (arith, h x, count-same p q xs h)

-- Where the new row fits, no row did before.
count-new_follow :
    (actor a : Subject) (target t : FollowTargetReference) (db : SocialDb)
    → find_one (is_follow actor target) db.follows ≡ none
    → is_follow a t (new_follow actor target db) ≡ true
    → count (is_follow a t) db.follows ≡ 0
count-new_follow actor a target t db e k =
    let own : is_follow actor target (new_follow actor target db) ≡ true =
      ground (arith, same_type_refl actor.type, same_target_type_refl target.type) in
    count-same (is_follow a t) (is_follow actor target) db.follows
      (λ f. is_follow_unique actor a target t (new_follow actor target db) f own k)
    ∙ count-none (is_follow actor target) db.follows e

-- At most one row for each actor and target, which the table's unique constraint asks for.
unfoldable pub IsSingle : SocialDb → Type 0
IsSingle db =
    (actor : Subject) (target : FollowTargetReference)
    → count (is_follow actor target) db.follows ≤ 1

-- A follow keeps the rows unique for every actor and target, whether it is accepted or refused.
follow-IsSingle :
    (actor : Subject) (target : FollowTargetReference) (db : SocialDb)
    → IsSingle db
    → IsSingle (follow actor target db).1
unfolding IsSingle
follow-IsSingle actor target db h a t = elim (Bool-cases (is_ok (follow actor target db).0)) [
  | inr refused ↦ ground (arith, follow-refused actor target db refused, h a t)
  | inl accepted ↦ elim (Option-cases (find_one (is_follow actor target) db.follows)) [
    | inr (f, e) ↦ ground (arith, follow-follows actor target db accepted, h a t)
    | inl missing ↦ ground (
      arith,
      follow-follows actor target db accepted,
      h a t,
      count-new_follow actor a target t db missing,
      count-insert_row (is_follow a t) db.follows (new_follow actor target db),
    )
  ]
]
