-- ===== src/Claims/Link.antt =====
-- A new request: it is the only pending one of its human for its agent, and its link can be used.
use agentschat.Prelude.{
  ℕ, ◌≡◌, refl, sym, ap, ◌∙◌, Bool, true, inl, inr, List, [], ◌∷◌, some, arith, Option-cases,
  Bool-cases,
}
use agentschat.Prelude.Table.{find_one, find_by, update, insert_row}
use agentschat.Prelude.Action.{ok, Result-cases, in_transaction}
use agentschat.Text.{Text, Unknown}
use agentschat.Claims.Store.{
  AgentEntity, ClaimRequestEntity, ClaimRequestStatus, RejectionReason, ClaimsDb, is_self,
}
use agentschat.Claims.Requests.{
  agent_by_id, resolve_claim_request_ttl_ms, update_claims, is_stale_claim, expired_claim,
  closed_claim, is_pending_of, expire_stale_claim_requests, rotate_pending, build_challenge_token,
  new_claim, insert_claim, announce_claim, request_transaction, request_claim, enqueue_event,
}
use agentschat.Claims.Bound.{in_transaction-ok}

-- The claims before a new one is added.
abbrev pub rotated : ℕ → ℕ → ℕ → List ClaimRequestEntity → List ClaimRequestEntity
rotated now owner agent cs =
    update (is_pending_of owner (some agent))
      (closed_claim ClaimRequestStatus.expired RejectionReason.claim_link_rotated now)
      (update (is_stale_claim now) expired_claim cs)

rotated-none :
    (now owner agent : ℕ) (cs : List ClaimRequestEntity)
    → find_by (is_pending_of owner (some agent)) (rotated now owner agent cs) ≡ []
unfolding find_by update
rotated-none now owner agent [] = refl
rotated-none now owner agent (c ∷ cs) = ground (arith, rotated-none now owner agent cs)

find_by-insert_row :
    (p : ClaimRequestEntity → Bool) (cs : List ClaimRequestEntity) (c : ClaimRequestEntity)
    → find_by p cs ≡ []
    → p c ≡ true
    → find_by p (insert_row cs c) ≡ c ∷ []
unfolding find_by insert_row
find_by-insert_row p [] c h fits = ground arith
find_by-insert_row p (d ∷ ds) c h fits = elim (Bool-cases (p d)) [
  | inl e ↦ absurd (ground arith)
  | inr e ↦ ground (arith, find_by-insert_row p ds c)
]

-- What a request that is accepted has made.
pub record IsMade (sha256 : Text → Text) (now owner agent : ℕ) (nonce : Text) (db db' : ClaimsDb)
    (a : AgentEntity) (ttl : ℕ) (c : ClaimRequestEntity) : Type 0 where
  pub agent_row : find_one (agent_by_id agent) db.agents ≡ some a
  pub unowned : is_self a.owner_type ≡ true
  pub made : c ≡ new_claim sha256 now owner (some agent) ttl nonce db.next_id
  pub claims : db'.claims ≡ insert_row (rotated now owner agent db.claims) c
  pub agents : db'.agents ≡ db.agents
  pub users : db'.users ≡ db.users
  pub connections : db'.connections ≡ db.connections

module _ (sha256 : Text → Text) (now owner agent : ℕ) (minutes : Unknown) (nonce : Text)
    (db : ClaimsDb) where
  request_transaction-IsMade :
      (c : ClaimRequestEntity) (event : ℕ)
      → (request_transaction sha256 now owner agent minutes nonce db).0 ≡ ok (c, event)
      → (a : AgentEntity) × (ttl : ℕ) × IsMade sha256 now owner agent nonce db
          (request_transaction sha256 now owner agent minutes nonce db).1
          a
          ttl
          c
  unfolding request_transaction expire_stale_claim_requests rotate_pending update_claims
      insert_claim announce_claim
  request_transaction-IsMade c event h =
      elim (Result-cases (resolve_claim_request_ttl_ms minutes)) [
        | inr (x, e) ↦ absurd (ground arith)
        | inl (ttl, e) ↦ elim (Option-cases (find_one (agent_by_id agent) db.agents)) [
          | inl n ↦ absurd (ground arith)
          | inr (a, f) ↦ elim (Bool-cases (is_self a.owner_type)) [
            | inr g ↦ absurd (ground arith)
            | inl g ↦ (
              a,
              ttl,
              record {
                agent_row = f;
                unowned = g;
                made = ground arith;
                claims = ground arith;
                agents = ground arith;
                users = ground arith;
                connections = ground arith;
              },
            )
          ]
        ]
      ]

  pub request_claim-IsMade :
      (c : ClaimRequestEntity) (link : Text)
      → (request_claim sha256 now owner agent minutes nonce db).0 ≡ ok (c, link)
      → (a : AgentEntity) × (ttl : ℕ) × IsMade sha256 now owner agent nonce db
          (request_claim sha256 now owner agent minutes nonce db).1
          a
          ttl
          c
        × (link ≡ build_challenge_token nonce)
  unfolding request_claim enqueue_event
  request_claim-IsMade c link h =
      elim (Result-cases
        (in_transaction (request_transaction sha256 now owner agent minutes nonce) db).0) [
          | inr (x, e) ↦ absurd (ground arith)
          | inl ((d, event), e) ↦
              let done =
                in_transaction-ok (request_transaction sha256 now owner agent minutes nonce) db
                  (d, event) e in
              let (a, ttl, made) = request_transaction-IsMade d event done.0 in
              let same : d ≡ c = ground arith in
              (
                a,
                ttl,
                record {
                  agent_row = made.agent_row;
                  unowned = made.unowned;
                  made = sym same ∙ made.made;
                  claims = ground (arith, done.1, made.claims, same);
                  agents = ground (arith, done.1, made.agents);
                  users = ground (arith, done.1, made.users);
                  connections = ground (arith, done.1, made.connections);
                },
                ground arith,
              )
        ]

  -- After an accepted request, it is the only pending one of its human for its agent.
  pub request_claim_is_only :
      (c : ClaimRequestEntity) (link : Text)
      → (request_claim sha256 now owner agent minutes nonce db).0 ≡ ok (c, link)
      → find_by
          (is_pending_of owner (some agent))
          (request_claim sha256 now owner agent minutes nonce db).1.claims
        ≡ c ∷ []
  request_claim_is_only c link h =
      let (a, ttl, made, is_link) = request_claim-IsMade c link h in
      ap (find_by (is_pending_of owner (some agent))) made.claims
      ∙ find_by-insert_row (is_pending_of owner (some agent)) (rotated now owner agent db.claims) c
          (rotated-none now owner agent db.claims) (ground (arith, made.made))
