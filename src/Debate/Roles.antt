-- ===== src/Debate/Roles.antt =====
-- The role of a participant in a debate's thread.
use agentschat.Prelude.{
  ℕ, ◌≤◌, ◌≡◌, refl, ◌⊎◌, inl, inr, some, none, arith, leb, ◌==◌, Option-cases, Bool-cases,
}
use agentschat.Prelude.Table.{find_one}
use agentschat.Prelude.Rows.{find_one-insert_row, find_one-update_kept}
use agentschat.Domain.{same_type_refl, Subject, ThreadParticipantRole}
use agentschat.Debate.Store.{Db, ThreadParticipantEntity}
use agentschat.Debate.Participants.{
  priority, merge_participant_role, is_participation, as_human, as_agent, join_thread,
  ensure_participant,
}

-- The merged role is the higher of the two: it is neither below the current role nor below the
-- requested one, and it is one of them.
merge_participant_role-highest :
    (a b : ThreadParticipantRole)
    → (priority a ≤ priority (merge_participant_role a b))
      × (priority b ≤ priority (merge_participant_role a b))
      × ((merge_participant_role a b ≡ a) ⊎ (merge_participant_role a b ≡ b))
unfolding merge_participant_role
merge_participant_role-highest a b = elim (Bool-cases (leb (priority b) (priority a))) [
  | inl above ↦ ground arith
  | inr below ↦ ground arith
]

-- The order in which roles are requested does not matter.
merge_participant_role_comm :
    (a b : ThreadParticipantRole) → merge_participant_role a b ≡ merge_participant_role b a
unfolding merge_participant_role priority
merge_participant_role_comm a b = ground arith

join_thread-merges :
    (thread : ℕ) (a : Subject) (role : ThreadParticipantRole) (db : Db)
    (old : ThreadParticipantEntity)
    → find_one (is_participation thread a) db.participants ≡ some old
    → find_one (is_participation thread a) (join_thread thread a role (some old) db).1.participants
      ≡ some (record old { role = merge_participant_role old.role role })
unfolding join_thread
join_thread-merges thread a role db old e =
    let merged = merge_participant_role old.role role in
    ground (
      arith,
      find_one-update_kept (is_participation thread a)
          (λ (q : ThreadParticipantEntity). q.id == old.id) (λ q. record q { role = merged })
          (λ q. refl) db.participants,
    )

join_thread-inserts :
    (thread : ℕ) (a : Subject) (role : ThreadParticipantRole) (db : Db)
    → find_one (is_participation thread a) db.participants ≡ none
    → (p : ThreadParticipantEntity) × (find_one
          (is_participation thread a)
          (join_thread thread a role none db).1.participants
        ≡ some p)
      × (p.role ≡ role)
unfolding join_thread
join_thread-inserts thread a role db e =
    let new : ThreadParticipantEntity = record {
      id = db.next_id;
      thread_id = thread;
      participant_type = a.type;
      participant_subject_id = a.id;
      user_id = as_human a;
      agent_id = as_agent a;
      role = role;
    } in
    (
      new,
      ground (
        arith,
        same_type_refl a.type,
        find_one-insert_row (is_participation thread a) db.participants new,
      ),
      refl,
    )

-- After `ensureParticipant` the subject takes part in the thread, with the requested role or the
-- higher one that it had.
ensure_participant-role :
    (thread : ℕ) (a : Subject) (role : ThreadParticipantRole) (db : Db)
    → (p : ThreadParticipantEntity) × (find_one
          (is_participation thread a)
          (ensure_participant thread a role db).1.participants
        ≡ some p)
      × (p.role ≡ elim (find_one (is_participation thread a) db.participants) [
        | none ↦ role
        | some old ↦ merge_participant_role old.role role
      ])
unfolding ensure_participant
ensure_participant-role thread a role db =
    elim (Option-cases (find_one (is_participation thread a) db.participants)) [
      | inl missing ↦
          let (p, found, same) = join_thread-inserts thread a role db missing in
          (p, ground arith, ground arith)
      | inr (old, e) ↦ (
        record old { role = merge_participant_role old.role role },
        ground (arith, join_thread-merges thread a role db old e),
        ground arith,
      )
    ]
