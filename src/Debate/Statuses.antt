-- ===== src/Debate/Statuses.antt =====
-- Which agents are debating.
use agentschat.Prelude.{
  ℕ, ◌≡◌, refl, sym, subst, ◌⊎◌, inl, inr, Bool, true, false, not, ◌&&◌, List, [], ◌∷◌, some, arith,
  ◌==◌, if◌then◌else◌, Option-cases, Bool-cases,
}
use mathlib.Core.List.{Memᴰ}
use mathlib.Core.List.Memᴰ
use mathlib.Core.Option
use agentschat.Prelude.Table.{find_one, exists}
use agentschat.Prelude.Rows.{find_one-holds, find_one-update}
use agentschat.Domain.{
  DebateSeatStatus, DebateSessionStatus, is_live, AgentStatus, is_suspended, same_agent_status,
}
use agentschat.Debate.Store.{Db, AgentEntity, DebateSeatEntity, DebateSessionEntity}
use agentschat.Debate.Requests.Reads.{sync_agent_status-agents}
use agentschat.Debate.Presence.{
  agent_by_id, has_live_seat, next_status, sync_agent_status, unique_from, sync_each,
  sync_agent_statuses,
}

-- The row that an agent's status is synchronised to.
abbrev pub synced : Db → AgentEntity → AgentEntity
synced db r = if is_suspended r.status then r else record r { status = next_status r.id db }

same_agent_status-≡ : (s t : AgentStatus) → same_agent_status s t ≡ true → s ≡ t
same_agent_status-≡ s t h = ground arith

sync_agent_status-found :
    (a i : ℕ) (db : Db)
    → find_one (agent_by_id i) (sync_agent_status a db).agents ≡ (
        if i == a
        then Option.map (synced db) (find_one (agent_by_id i) db.agents)
        else find_one (agent_by_id i) db.agents)
unfolding sync_agent_status
sync_agent_status-found a i db =
    let write =
      find_one-update (λ (r : AgentEntity). r.id) (λ r. record r { status = next_status a db })
        (λ r. refl) i a db.agents in
    elim (Option-cases (find_one (agent_by_id a) db.agents)) [
      | inl missing ↦ ground arith
      | inr (r, e) ↦ ground (
        arith,
        write,
        find_one-holds (agent_by_id a) db.agents r e,
        same_agent_status-≡ r.status (next_status a db),
      )
    ]

sync_agent_status-synced :
    (a : ℕ) (db : Db) (r : AgentEntity) → synced (sync_agent_status a db) r ≡ synced db r
unfolding has_live_seat
sync_agent_status-synced a db r = ground (arith, sync_agent_status-agents a db)

synced-twice : (db : Db) (r : AgentEntity) → synced db (synced db r) ≡ synced db r
synced-twice db r = ground arith

sync_each-found :
    (ids : List ℕ) (i : ℕ) (db : Db)
    → find_one (agent_by_id i) (sync_each ids db).agents ≡ (
        if exists (λ b. b == i) ids
        then Option.map (synced db) (find_one (agent_by_id i) db.agents)
        else find_one (agent_by_id i) db.agents)
unfolding sync_each exists
sync_each-found [] i db = refl
sync_each-found (a ∷ ids) i db =
    let later = sync_each-found ids i (sync_agent_status a db) in
    let first = sync_agent_status-found a i db in
    elim (Option-cases (find_one (agent_by_id i) db.agents)) [
      | inl missing ↦ ground arith
      | inr (r, e) ↦ ground (
        arith,
        sync_agent_status-synced a db r,
        sync_agent_status-synced a db (synced db r),
        synced-twice db r,
      )
    ]

-- `new Set(ids)` has the same members.
pub unique_from-exists :
    (seen ids : List ℕ) (i : ℕ)
    → exists (λ b. b == i) (unique_from seen ids)
      ≡ exists (λ b. b == i) ids && not (exists (λ b. b == i) seen)
unfolding unique_from exists
unique_from-exists seen [] i = refl
unique_from-exists seen (a ∷ ids) i =
    ground (arith, unique_from-exists seen ids i, unique_from-exists (a ∷ seen) ids i)

sync_agent_statuses-found :
    (ids : List ℕ) (i : ℕ) (db : Db)
    → find_one (agent_by_id i) (sync_agent_statuses ids db).1.agents ≡ (
        if exists (λ b. b == i) ids
        then Option.map (synced db) (find_one (agent_by_id i) db.agents)
        else find_one (agent_by_id i) db.agents)
unfolding sync_agent_statuses exists
sync_agent_statuses-found ids i db =
    ground (arith, sync_each-found (unique_from [] ids) i db, unique_from-exists [] ids i)

module _ {A : Type 0} (p : A → Bool) where
  exists-Mem : (xs : List A) → exists p xs ≡ true → (x : A) × Memᴰ x xs × (p x ≡ true)
  unfolding exists
  exists-Mem [] h = absurd (ground arith)
  exists-Mem (x ∷ xs) h = elim (Bool-cases (p x)) [
    | inl here ↦ (x, Memᴰ.head refl, here)
    | inr further ↦ let (y, m, q) = exists-Mem xs (ground arith) in (y, Memᴰ.tail m, q)
  ]

  Mem-exists : (xs : List A) (x : A) → Memᴰ x xs → p x ≡ true → exists p xs ≡ true
  unfolding exists
  Mem-exists [] x m h = absurd (Memᴰ.not-nil m)
  Mem-exists (y ∷ _) x (Memᴰ.head e) h =
      let first : p y ≡ true = subst (λ z. p z ≡ true) e h in ground arith
  Mem-exists (_ ∷ xs) x (Memᴰ.tail m) h = ground (arith, Mem-exists xs x m h)

-- The agent occupies a seat of a session that is live.
pub record IsDebating (db : Db) (i : ℕ) (s : DebateSeatEntity) (d : DebateSessionEntity)
    : Type 0 where
  pub seat_row : Memᴰ s db.seats
  pub session_row : Memᴰ d db.sessions
  pub taken : s.agent_id ≡ some i
  pub occupied : s.status ≡ DebateSeatStatus.occupied
  pub seat_of : s.debate_session_id ≡ d.id
  pub live : d.status ≡ DebateSessionStatus.live

abbrev pub Debates : Db → ℕ → Type 0
Debates db i = (s : DebateSeatEntity) × (d : DebateSessionEntity) × IsDebating db i s d

has_live_seat-Debates : (i : ℕ) (db : Db) → has_live_seat i db ≡ true → Debates db i
unfolding has_live_seat
has_live_seat-Debates i db h =
    let (s, m, q) = exists-Mem _ db.seats h in
    let (d, n, r) =
      exists-Mem (λ d. d.id == s.debate_session_id && is_live d.status) db.sessions
        (ground arith) in
    (
      s,
      d,
      record {
        seat_row = m;
        session_row = n;
        taken = ground arith;
        occupied = ground arith;
        seat_of = ground arith;
        live = ground arith;
      },
    )

Debates-has_live_seat : (i : ℕ) (db : Db) → Debates db i → has_live_seat i db ≡ true
unfolding has_live_seat
Debates-has_live_seat i db (s, d, b) =
    let open_session =
      Mem-exists (λ d. d.id == s.debate_session_id && is_live d.status) db.sessions d b.session_row
        (ground (arith, b.seat_of, b.live)) in
    Mem-exists _ db.seats s b.seat_row (ground (arith, open_session, b.taken, b.occupied))

-- What a synchronisation may do to the status of an agent's row, listed or not.
abbrev pub IsSynced : Bool → Db → AgentEntity → AgentEntity → Type 0
IsSynced listed db r r' =
    ((listed && not (is_suspended r.status) ≡ true)
      × ((r'.status ≡ AgentStatus.debating) × Debates db r.id
          ⊎ (r'.status ≡ AgentStatus.online) × ¬ Debates db r.id))
    ⊎ ((listed && not (is_suspended r.status) ≡ false) × (r' ≡ r))

synced-IsSynced : (db : Db) (r : AgentEntity) → IsSynced true db r (synced db r)
synced-IsSynced db r = elim (Bool-cases (is_suspended r.status)) [
  | inl out ↦ inr (ground arith, ground arith)
  | inr fine ↦ elim (Bool-cases (has_live_seat r.id db)) [
    | inl on ↦ inl (ground arith, inl (ground arith, has_live_seat-Debates r.id db on))
    | inr off ↦ inl (
      ground arith,
      inr (ground arith, λ b. absurd (ground (arith, Debates-has_live_seat r.id db b))),
    )
  ]
]

-- After `syncAgentStatuses` every agent of the list that is not suspended is `debating`, and then
-- it occupies a seat of a live session, or `online`, and then it occupies none; a suspended agent,
-- and every agent outside the list, is as it was.
pub sync_agent_statuses-IsSynced :
    (ids : List ℕ) (i : ℕ) (db : Db) (r : AgentEntity)
    → find_one (agent_by_id i) db.agents ≡ some r
    → (r' : AgentEntity) × (find_one (agent_by_id i) (sync_agent_statuses ids db).1.agents
        ≡ some r')
      × IsSynced (exists (λ b. b == i) ids) db r r'
sync_agent_statuses-IsSynced ids i db r found =
    let after = sync_agent_statuses-found ids i db in
    elim (Bool-cases (exists (λ b. b == i) ids)) [
      | inl listed ↦ (
        synced db r,
        ground arith,
        subst (λ l. IsSynced l db r (synced db r)) (sym listed) (synced-IsSynced db r),
      )
      | inr other ↦ (r, ground arith, inr (ground arith, refl))
    ]
