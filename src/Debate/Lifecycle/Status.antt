-- ===== src/Debate/Lifecycle/Status.antt =====
-- The diagram of session statuses, and what it says of the session table.
use agentschat.Prelude.{
  ℕ, ◌≡◌, refl, Bool, true, ◌||◌, sym, subst, inl, inr, some, List, arith, ◌==◌, Bool-cases,
}
use agentschat.Prelude.Table.{find_one, update, insert_row}
use agentschat.Prelude.Rows.{find_one-update, find_one-insert_row, find_one-holds}
use agentschat.Domain.{DebateSessionStatus, is_ended, is_archived}
use agentschat.Debate.Store.{DebateSessionEntity, session_by_id}

infix 40 ◌⟶◌ ◌⟶*◌
pub data ◌⟶◌ : DebateSessionStatus → DebateSessionStatus → Type 0 where
  start : DebateSessionStatus.pending ⟶ DebateSessionStatus.live
  pause : DebateSessionStatus.live ⟶ DebateSessionStatus.paused
  resume : DebateSessionStatus.paused ⟶ DebateSessionStatus.live
  cancel : DebateSessionStatus.pending ⟶ DebateSessionStatus.ended
  finish : DebateSessionStatus.live ⟶ DebateSessionStatus.ended
  stop : DebateSessionStatus.paused ⟶ DebateSessionStatus.ended
  archive : DebateSessionStatus.ended ⟶ DebateSessionStatus.archived

pub data ◌⟶*◌ (s : DebateSessionStatus) : DebateSessionStatus → Type 0 where
  here : s ⟶* s
  then : {t u : DebateSessionStatus} → s ⟶* t → t ⟶ u → s ⟶* u

pub ruleset edges = (here, then, start, pause, resume, cancel, finish, stop, archive)

pub ⟶*-trans : {s t u : DebateSessionStatus} → s ⟶* t → t ⟶* u → s ⟶* u
⟶*-trans p here = p
⟶*-trans p (then q e) = then (⟶*-trans p q) e

-- Nothing but `archived` follows `ended`, and nothing follows `archived`.
abbrev pub is_over : DebateSessionStatus → Bool
is_over s = is_ended s || is_archived s

pub over-⟶* : {s t : DebateSessionStatus} → s ⟶* t → is_over s ≡ true → is_over t ≡ true
over-⟶* here e = e
over-⟶* (then p start) e = ground (arith, over-⟶* p e)
over-⟶* (then p pause) e = ground (arith, over-⟶* p e)
over-⟶* (then p resume) e = ground (arith, over-⟶* p e)
over-⟶* (then p cancel) e = ground (arith, over-⟶* p e)
over-⟶* (then p finish) e = ground (arith, over-⟶* p e)
over-⟶* (then p stop) e = ground (arith, over-⟶* p e)
over-⟶* (then p archive) e = refl

-- No session is lost, and each went along the diagram.
abbrev pub Evolves : List DebateSessionEntity → List DebateSessionEntity → Type 0
Evolves xs ys =
    (i : ℕ) (d : DebateSessionEntity)
    → find_one (session_by_id i) xs ≡ some d
    → (e : DebateSessionEntity) × (find_one (session_by_id i) ys ≡ some e) × (d.status ⟶* e.status)

pub Evolves-refl : (xs ys : List DebateSessionEntity) → ys ≡ xs → Evolves xs ys
Evolves-refl xs ys p i d e = (d, rw p e, here)

pub Evolves-trans :
    (xs ys zs : List DebateSessionEntity) → Evolves xs ys → Evolves ys zs → Evolves xs zs
Evolves-trans xs ys zs p q i d e =
    let (d', e', s) = p i d e in let (d'', e'', s') = q i d' e' in (d'', e'', ⟶*-trans s s')

module _ (f : DebateSessionEntity → DebateSessionEntity)
    (keeps : (d : DebateSessionEntity) → (f d).id ≡ d.id) (k : ℕ) where
  pub Evolves-update :
      (xs : List DebateSessionEntity) (d : DebateSessionEntity)
      → find_one (session_by_id k) xs ≡ some d
      → d.status ⟶* (f d).status
      → Evolves xs (update (session_by_id k) f xs)
  Evolves-update xs d found edge i e h = elim (Bool-cases (i == k)) [
    | inl same ↦
        let one : e ≡ d = ground (arith, found, h, same) in
        (
          f e,
          ground (arith, find_one-update (λ (s : DebateSessionEntity). s.id) f keeps i k xs),
          rw one edge,
        )
    | inr other ↦ (
      e,
      ground (arith, find_one-update (λ (s : DebateSessionEntity). s.id) f keeps i k xs),
      here,
    )
  ]

pub Evolves-insert_row :
    (xs : List DebateSessionEntity) (d : DebateSessionEntity) → Evolves xs (insert_row xs d)
Evolves-insert_row xs d i e h =
    (e, ground (arith, find_one-insert_row (session_by_id i) xs d), here)

-- The change of one row that was found, along an edge.
pub Evolves-by :
    (xs ys : List DebateSessionEntity) (i : ℕ) (d : DebateSessionEntity)
    (f : DebateSessionEntity → DebateSessionEntity)
    → ((s : DebateSessionEntity) → (f s).id ≡ s.id)
    → find_one (session_by_id i) xs ≡ some d
    → ys ≡ update (session_by_id d.id) f xs
    → d.status ⟶* (f d).status
    → Evolves xs ys
Evolves-by xs ys i d f keeps found changed edge =
    let same : d.id ≡ i = ground (arith, find_one-holds (session_by_id i) xs d found) in
    let own = subst (λ k. find_one (session_by_id k) xs ≡ some d) (sym same) found in
    rw changed (Evolves-update f keeps d.id xs d own edge)
