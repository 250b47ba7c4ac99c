-- ===== src/Debate/Guards.antt =====
-- Who may do what, and when.
use agentschat.Prelude.{
  ◌==◌, [], ◌∷◌, ℕ, ◌≡◌, inl, inr, Bool, true, false, not, ◌&&◌, ◌||◌, some, none, arith, is_some,
  Option-cases,
}
use agentschat.Prelude.Table.{find_one, exists}
use agentschat.Prelude.Action.{is_ok, in_transaction}
use agentschat.Text.{Unknown}
use agentschat.Domain.{
  is_suspended, SubjectType, Subject, is_pending, is_live, is_paused, is_ended, is_archived,
  DebateSessionStatus,
}
use agentschat.Debate.Create.{CreateDebateInput, create_debate, required_string, create_transaction}
use agentschat.Debate.Eligible.{
  assert_distinct_debate_roles, assert_agent_eligible, host_takes_seat,
  assert_agents_available_for_seats, is_reserved_by,
}
use agentschat.Debate.Presence.{agent_by_id}
use agentschat.Debate.Store.{Db, DebateSessionEntity, session_by_id}
use agentschat.Debate.Host.{
  is_host, start_transaction, pause_transaction, resume_transaction, end_transaction,
}
use agentschat.Debate.Seating.{is_debater, assert_spectator_comment_allowed}

-- The session exists, the actor hosts it, and its status is one that the operation asks for.
abbrev pub IsGuarded : (DebateSessionStatus → Bool) → Subject → ℕ → Db → Type 0
IsGuarded fits actor i db =
    (d : DebateSessionEntity) × (find_one (session_by_id i) db.sessions ≡ some d)
    × (is_host d actor ≡ true)
    × (fits d.status ≡ true)

module _ (now : ℕ) (actor : Subject) (i : ℕ) (db : Db) where
  start_transaction-IsGuarded :
      is_ok (start_transaction now actor i db).0 ≡ true → IsGuarded is_pending actor i db
  unfolding start_transaction
  start_transaction-IsGuarded h = elim (Option-cases (find_one (session_by_id i) db.sessions)) [
    | inl none_there ↦ absurd (ground arith)
    | inr (d, e) ↦ (d, e, ground arith, ground arith)
  ]

  pause_transaction-IsGuarded :
      (reason : Unknown)
      → is_ok (pause_transaction now actor i reason db).0 ≡ true
      → IsGuarded is_live actor i db
  unfolding pause_transaction
  pause_transaction-IsGuarded reason h =
      elim (Option-cases (find_one (session_by_id i) db.sessions)) [
        | inl none_there ↦ absurd (ground arith)
        | inr (d, e) ↦ (d, e, ground arith, ground arith)
      ]

  resume_transaction-IsGuarded :
      is_ok (resume_transaction now actor i db).0 ≡ true → IsGuarded is_paused actor i db
  unfolding resume_transaction
  resume_transaction-IsGuarded h = elim (Option-cases (find_one (session_by_id i) db.sessions)) [
    | inl none_there ↦ absurd (ground arith)
    | inr (d, e) ↦ (d, e, ground arith, ground arith)
  ]

  end_transaction-IsGuarded :
      is_ok (end_transaction now actor i db).0 ≡ true
      → IsGuarded (λ s. is_pending s || is_live s || is_paused s) actor i db
  unfolding end_transaction
  end_transaction-IsGuarded h = elim (Option-cases (find_one (session_by_id i) db.sessions)) [
    | inl none_there ↦ absurd (ground arith)
    | inr (d, e) ↦ (d, e, ground arith, ground arith)
  ]

  -- Only the host of an existing session gets through: a start needs it pending, a pause live, a
  -- resumption paused, and an ending pending, live or paused.
  pub host_transactions-IsGuarded :
      (reason : Unknown)
      → (is_ok (start_transaction now actor i db).0 ≡ true → IsGuarded is_pending actor i db)
        × (is_ok (pause_transaction now actor i reason db).0 ≡ true → IsGuarded is_live actor i db)
        × (is_ok (resume_transaction now actor i db).0 ≡ true → IsGuarded is_paused actor i db)
        × (is_ok (end_transaction now actor i db).0 ≡ true
            → IsGuarded (λ s. is_pending s || is_live s || is_paused s) actor i db)
  host_transactions-IsGuarded reason = (
    start_transaction-IsGuarded,
    pause_transaction-IsGuarded reason,
    resume_transaction-IsGuarded,
    end_transaction-IsGuarded,
  )

-- A session that takes comments, and an actor that is not one of its debaters.
abbrev pub takes_comment : Subject → ℕ → Db → DebateSessionEntity → Bool
takes_comment actor i db d =
    not (is_pending d.status)
    && not (is_ended d.status || is_archived d.status || is_some d.archived_at)
    && elim actor.type [
      | SubjectType.human ↦ true
      | SubjectType.agent ↦ not (exists (is_debater i actor.id) db.seats)
    ]

-- A comment is allowed exactly on an existing session that was started, has not ended and was not
-- archived, from a human or from an agent that occupies none of its seats; asking changes nothing.
assert_spectator_comment_allowed-takes_comment :
    (actor : Subject) (i : ℕ) (db : Db)
    → (is_ok (assert_spectator_comment_allowed actor i db).0
        ≡ elim (find_one (session_by_id i) db.sessions) [
          | none ↦ false
          | some d ↦ takes_comment actor i db d
        ])
      × ((assert_spectator_comment_allowed actor i db).1 ≡ db)
unfolding assert_spectator_comment_allowed
assert_spectator_comment_allowed-takes_comment actor i db = (ground arith, ground arith)

create_debate-ids :
    (now : ℕ) (host : Subject) (input : CreateDebateInput) (human : Bool) (db : Db)
    → is_ok (create_debate now host input human db).0 ≡ true
    → (a : ℕ) × (b : ℕ) × (input.pro_agent_id ≡ some a) × (input.con_agent_id ≡ some b)
unfolding create_debate required_string
create_debate-ids now host input human db h = elim (Option-cases input.pro_agent_id) [
  | inl missing ↦ absurd (ground arith)
  | inr (a, e) ↦ elim (Option-cases input.con_agent_id) [
    | inl missing ↦ absurd (ground arith)
    | inr (b, k) ↦ (a, b, e, k)
  ]
]

-- An agent that may be seated: it exists and is not suspended.
abbrev pub seatable : ℕ → Db → Bool
seatable i db = elim (find_one (agent_by_id i) db.agents) [
  | none ↦ false
  | some a ↦ not (is_suspended a.status)
]

create_debate-checks :
    (now : ℕ) (host : Subject) (input : CreateDebateInput) (human : Bool) (db : Db) (a b : ℕ)
    → input.pro_agent_id ≡ some a
    → input.con_agent_id ≡ some b
    → is_ok (create_debate now host input human db).0 ≡ true
    → ((a == b) ≡ false)
      × (host_takes_seat host a b ≡ false)
      × (seatable a db ≡ true)
      × (seatable b db ≡ true)
unfolding create_debate required_string assert_distinct_debate_roles assert_agent_eligible
create_debate-checks now host input human db a b e k h = ground arith

create_debate-free :
    (now : ℕ) (host : Subject) (input : CreateDebateInput) (human : Bool) (db : Db) (a b : ℕ)
    → input.pro_agent_id ≡ some a
    → input.con_agent_id ≡ some b
    → is_ok (create_debate now host input human db).0 ≡ true
    → exists (is_reserved_by db (a ∷ b ∷ []) none) db.seats ≡ false
unfolding create_debate required_string assert_distinct_debate_roles assert_agent_eligible
    in_transaction create_transaction assert_agents_available_for_seats
create_debate-free now host input human db a b e k h = ground arith

-- A debate is created only for two different agents, neither of them the host, that both exist, are
-- not suspended, and occupy no seat of a pending, live or paused session.
pub create_debate-seatable :
    (now : ℕ) (host : Subject) (input : CreateDebateInput) (human : Bool) (db : Db)
    → is_ok (create_debate now host input human db).0 ≡ true
    → (a : ℕ) × (b : ℕ) × (input.pro_agent_id ≡ some a)
      × (input.con_agent_id ≡ some b)
      × ((a == b) ≡ false)
      × (host_takes_seat host a b ≡ false)
      × (seatable a db ≡ true)
      × (seatable b db ≡ true)
      × (exists (is_reserved_by db (a ∷ b ∷ []) none) db.seats ≡ false)
create_debate-seatable now host input human db h =
    let (a, b, e, k) = create_debate-ids now host input human db h in
    let (differ, apart, first, second) = create_debate-checks now host input human db a b e k h in
    (a, b, e, k, differ, apart, first, second, create_debate-free now host input human db a b e k h)
