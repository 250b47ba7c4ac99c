-- ===== src/Social/UnfollowLaws.antt =====
-- What an unfollow does, and what it keeps.
use agentschat.Prelude.{
  ◌≤◌, ◌≡◌, refl, inl, inr, Bool, true, false, none, some, ◌==◌, arith, Option-cases, Bool-cases,
  List, [], ◌∷◌,
}
use agentschat.Prelude.Table.{find_one, exists, delete}
use agentschat.Prelude.Rows.{find_one-exists}
use agentschat.Prelude.Action.{ok, is_ok}
use agentschat.Domain.{Subject}
use agentschat.Social.Store.{FollowTargetReference, FollowEntity, SocialDb, is_follow}
use agentschat.Social.Follow.{
  assert_actor_exists, assert_target_exists, assert_target_actor_compatibility, drop_follow,
  unfollow, read_state,
}
use agentschat.Prelude.Count.{count, count-exists, exists-delete, count-delete}
use agentschat.Social.FollowLaws.{IsSingle}

-- The row that was found is gone by its id; where at most one row fits, none is left.
exists-delete_found :
    (p : FollowEntity → Bool) (xs : List FollowEntity) (f : FollowEntity)
    → find_one p xs ≡ some f
    → count p xs ≤ 1
    → exists p (delete (λ g. g.id == f.id) xs) ≡ false
unfolding find_one count exists delete
exists-delete_found p [] f e h = refl
exists-delete_found p (x ∷ xs) f e h =
    ground
      (arith, exists-delete_found p xs f, count-exists p xs, exists-delete p (λ g. g.id == f.id) xs)

unfollow-follows :
    (actor : Subject) (target : FollowTargetReference) (db : SocialDb)
    → is_ok (unfollow actor target db).0 ≡ true
    → (unfollow actor target db).1.follows ≡ elim (find_one (is_follow actor target) db.follows) [
      | none ↦ db.follows
      | some f ↦ delete (λ g. g.id == f.id) db.follows
    ]
unfolding unfollow drop_follow assert_actor_exists assert_target_exists
    assert_target_actor_compatibility
unfollow-follows actor target db h = ground arith

unfollow-read_state-checks :
    (actor : Subject) (target : FollowTargetReference) (db : SocialDb)
    → is_ok (unfollow actor target db).0 ≡ true
    → (read_state actor target (unfollow actor target db).1).0
      ≡ ok (exists (is_follow actor target) (unfollow actor target db).1.follows)
unfolding read_state unfollow drop_follow assert_actor_exists assert_target_exists
    assert_target_actor_compatibility
unfollow-read_state-checks actor target db h = ground arith

-- After an unfollow that was accepted, the actor is told that it does not follow the target, where
-- at most one row stood for each actor and target.
unfollow-read_state :
    (actor : Subject) (target : FollowTargetReference) (db : SocialDb)
    → IsSingle db
    → is_ok (unfollow actor target db).0 ≡ true
    → (read_state actor target (unfollow actor target db).1).0 ≡ ok false
unfolding IsSingle
unfollow-read_state actor target db single h =
    elim (Option-cases (find_one (is_follow actor target) db.follows)) [
      | inl missing ↦ ground (
        arith,
        unfollow-follows actor target db h,
        unfollow-read_state-checks actor target db h,
        find_one-exists (is_follow actor target) db.follows,
      )
      | inr (f, e) ↦ ground (
        arith,
        unfollow-follows actor target db h,
        unfollow-read_state-checks actor target db h,
        exists-delete_found (is_follow actor target) db.follows f e (single actor target),
      )
    ]

unfollow-refused :
    (actor : Subject) (target : FollowTargetReference) (db : SocialDb)
    → is_ok (unfollow actor target db).0 ≡ false
    → (unfollow actor target db).1.follows ≡ db.follows
unfolding unfollow drop_follow assert_actor_exists assert_target_exists
    assert_target_actor_compatibility
unfollow-refused actor target db h = ground arith

-- An unfollow keeps the rows unique for every actor and target, whether it is accepted or refused.
unfollow-IsSingle :
    (actor : Subject) (target : FollowTargetReference) (db : SocialDb)
    → IsSingle db
    → IsSingle (unfollow actor target db).1
unfolding IsSingle
unfollow-IsSingle actor target db h a t = elim (Bool-cases (is_ok (unfollow actor target db).0)) [
  | inr refused ↦ ground (arith, unfollow-refused actor target db refused, h a t)
  | inl accepted ↦ elim (Option-cases (find_one (is_follow actor target) db.follows)) [
    | inl missing ↦ ground (arith, unfollow-follows actor target db accepted, h a t)
    | inr (f, e) ↦ ground (
      arith,
      unfollow-follows actor target db accepted,
      h a t,
      count-delete (is_follow a t) (λ g. g.id == f.id) db.follows,
    )
  ]
]
