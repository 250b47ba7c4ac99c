-- ===== src/Claims/Requests.antt =====
-- agents.service.ts: requests to claim an agent, their rotation, expiry and withdrawal.
-- `sha256` is the hash of a token, in hexadecimal.
use agentschat.Prelude.{
  ℕ, suc, ◌+◌, ◌*◌, Bool, true, not, ◌&&◌, ◌||◌, [], ◌∷◌, ◌++◌, Option, none, some, ltb, leb, ◌==◌,
  holds, if◌then◌else◌,
}
use agentschat.Prelude.Table.{find_one, exists, update, insert_row}
use agentschat.Prelude.Action.{
  Result, ok, err, pure, gets, modify, or_throw, or_refuse, throw_if, in_transaction, ◌>>=◌, ◌>>◌,
}
use agentschat.Text.{Text, Unknown, codes}
use agentschat.Claims.Store.{
  ClaimRequestStatus, RejectionReason, AgentEntity, ClaimRequestEntity, Refusal, M, is_self,
  is_pending,
}

abbrev pub agent_by_id : ℕ → AgentEntity → Bool
agent_by_id i a = a.id == i

abbrev pub claim_by_id : ℕ → ClaimRequestEntity → Bool
claim_by_id i c = c.id == i

unfoldable pub resolve_claim_request_ttl_ms : Unknown → Result Refusal ℕ
resolve_claim_request_ttl_ms Unknown.undefined = ok (60 * 60 * 1000)
resolve_claim_request_ttl_ms Unknown.null = ok (60 * 60 * 1000)
resolve_claim_request_ttl_ms (Unknown.number n) =
    if ltb n 15 || ltb (24 * 60) n then err Refusal.invalid_minutes else ok (n * 60 * 1000)
resolve_claim_request_ttl_ms _ = err Refusal.invalid_minutes

unfoldable pub update_claims :
    (ClaimRequestEntity → Bool) → (ClaimRequestEntity → ClaimRequestEntity) → M (Unit {0})
update_claims p f = modify λ db. record db { claims = update p f db.claims }

abbrev pub is_stale_claim : ℕ → ClaimRequestEntity → Bool
is_stale_claim now c = is_pending c.status && leb c.expires_at now

abbrev pub expired_claim : ClaimRequestEntity → ClaimRequestEntity
expired_claim c = record c { status = ClaimRequestStatus.expired }

unfoldable pub expire_stale_claim_requests : ℕ → M (Unit {0})
expire_stale_claim_requests now = update_claims (is_stale_claim now) expired_claim

abbrev pub closed_claim :
    ClaimRequestStatus → RejectionReason → ℕ → ClaimRequestEntity → ClaimRequestEntity
closed_claim status reason now c = record c {
  status = status;
  rejected_at = some now;
  rejection_reason = some reason;
}

abbrev same_agent : Option ℕ → Option ℕ → Bool
same_agent none none = true
same_agent none (some j) = Bool.false
same_agent (some i) b = holds b i

-- The pending requests of a human for an agent, or for none in particular.
abbrev pub is_pending_of : ℕ → Option ℕ → ClaimRequestEntity → Bool
is_pending_of owner agent c =
    is_pending c.status && c.requested_by_user_id == owner && same_agent agent c.agent_id

-- Older links of the human stop working.
unfoldable pub rotate_pending : ℕ → ℕ → Option ℕ → M (Unit {0})
rotate_pending now owner agent =
    update_claims (is_pending_of owner agent)
      (closed_claim ClaimRequestStatus.expired RejectionReason.claim_link_rotated now)

unfoldable pub build_challenge_token : Text → Text
build_challenge_token nonce = codes "claimreq.v1." ++ nonce

abbrev pub new_claim : (Text → Text) → ℕ → ℕ → Option ℕ → ℕ → Text → ℕ → ClaimRequestEntity
new_claim sha256 now owner agent ttl nonce i = record {
  id = i;
  agent_id = agent;
  requested_by_user_id = owner;
  status = ClaimRequestStatus.pending;
  challenge_token_hash = sha256 (build_challenge_token nonce);
  expires_at = now + ttl;
  confirmed_at = none;
  rejected_at = none;
  rejection_reason = none;
}

unfoldable pub insert_claim : ClaimRequestEntity → M (Unit {0})
insert_claim c =
    modify λ db. record db { claims = insert_row db.claims c; next_id = suc db.next_id }

-- The thread and the event of a request.
unfoldable pub announce_claim : ℕ → ℕ → ℕ → Text → M ℕ
announce_claim owner agent claim nonce db = (
  ok (suc db.next_id),
  record db {
    events = insert_row db.events (record {
      id = suc db.next_id;
      thread_id = db.next_id;
      actor_user_id = owner;
      target_id = agent;
      claim_request_id = claim;
      challenge_token = build_challenge_token nonce;
    });
    next_id = suc (suc db.next_id);
  },
)

-- A human-owned agent is refused, with another message for its owner.
abbrev owner_refusal : ℕ → AgentEntity → Refusal
owner_refusal owner a =
    if holds a.owner_user_id owner then Refusal.already_owned else Refusal.owned_by_human

-- The request and its event.
unfoldable pub request_transaction :
    (Text → Text) → ℕ → ℕ → ℕ → Unknown → Text → M (ClaimRequestEntity × ℕ)
request_transaction sha256 now owner agent minutes nonce = do
  ttl ← or_refuse (resolve_claim_request_ttl_ms minutes)
  found ← gets (λ db. find_one (agent_by_id agent) db.agents)
  expire_stale_claim_requests now
  a ← or_throw found Refusal.agent_not_found
  throw_if (not (is_self a.owner_type)) (owner_refusal owner a)
  rotate_pending now owner (some agent)
  i ← gets (λ db. db.next_id)
  let c = new_claim sha256 now owner (some agent) ttl nonce i
  insert_claim c
  event ← announce_claim owner agent i nonce
  pure (c, event)

unfoldable pub enqueue_event : ℕ → ℕ → M (Unit {0})
enqueue_event event agent =
    modify λ db. record db { delivered = db.delivered ++ (event, agent) ∷ [] }

-- The request and the token of its link.
unfoldable pub request_claim :
    (Text → Text) → ℕ → ℕ → ℕ → Unknown → Text → M (ClaimRequestEntity × Text)
request_claim sha256 now owner agent minutes nonce = do
  made ← in_transaction (request_transaction sha256 now owner agent minutes nonce)
  enqueue_event made.1 agent
  pure (made.0, build_challenge_token nonce)

unfoldable pub untargeted_transaction :
    (Text → Text) → ℕ → ℕ → Unknown → Text → M ClaimRequestEntity
untargeted_transaction sha256 now owner minutes nonce = do
  ttl ← or_refuse (resolve_claim_request_ttl_ms minutes)
  expire_stale_claim_requests now
  rotate_pending now owner none
  i ← gets (λ db. db.next_id)
  let c = new_claim sha256 now owner none ttl nonce i
  insert_claim c
  pure c

unfoldable pub request_untargeted_claim :
    (Text → Text) → ℕ → ℕ → Unknown → Text → M (ClaimRequestEntity × Text)
request_untargeted_claim sha256 now owner minutes nonce = do
  c ← in_transaction (untargeted_transaction sha256 now owner minutes nonce)
  pure (c, build_challenge_token nonce)

abbrev pub is_withdrawable : ℕ → ℕ → ClaimRequestEntity → Bool
is_withdrawable owner i c = c.id == i && c.requested_by_user_id == owner && is_pending c.status

unfoldable pub cancel_claim : ℕ → ℕ → ℕ → M ClaimRequestStatus
cancel_claim now owner i = do
  affected ← gets (λ db. exists (is_withdrawable owner i) db.claims)
  update_claims (is_withdrawable owner i)
      (closed_claim ClaimRequestStatus.rejected RejectionReason.withdrawn_by_applicant now)
  throw_if (not affected) Refusal.no_matching_request
  pure ClaimRequestStatus.rejected
