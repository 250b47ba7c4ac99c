-- ===== src/Claims/Keep.antt =====
-- What requests, withdrawals and previews of claims keep: agents that have an owner and claims that
-- are over.
use agentschat.Prelude.{ℕ, ◌≡◌, refl, ap, ◌∙◌, Bool, true, false, Option, some, arith}
use agentschat.Prelude.Table.{find_one}
use agentschat.Prelude.Rows.{find_one-update_kept, find_one-insert_row}
use agentschat.Prelude.Keeps.{Preorder, Keeps, keeping}
use agentschat.Text.{Text, Unknown}
use agentschat.Claims.Store.{
  AgentEntity, ClaimRequestEntity, ClaimRequestStatus, RejectionReason, ClaimsDb, M, is_self,
  is_pending,
}
use agentschat.Claims.Requests.{
  agent_by_id, claim_by_id, update_claims, is_stale_claim, closed_claim,
  expire_stale_claim_requests, rotate_pending, insert_claim, announce_claim, request_transaction,
  request_claim, enqueue_event, is_withdrawable, untargeted_transaction, request_untargeted_claim,
  cancel_claim,
}
use agentschat.Claims.Confirm.{authenticate_agent_token, assert_control_token, preview_claim}

pub record Stays (db db' : ClaimsDb) : Type 0 where
  pub agents :
      (i : ℕ) (a : AgentEntity)
      → find_one (agent_by_id i) db.agents ≡ some a
      → is_self a.owner_type ≡ false
      → find_one (agent_by_id i) db'.agents ≡ some a
  pub claims :
      (i : ℕ) (c : ClaimRequestEntity)
      → find_one (claim_by_id i) db.claims ≡ some c
      → is_pending c.status ≡ false
      → find_one (claim_by_id i) db'.claims ≡ some c

abbrev pub staying : Preorder ClaimsDb
staying = record {
  Le = Stays;
  le_refl = λ db. record { agents = λ i a e h. e; claims = λ i c e h. e };
  le_trans = λ x y z f g. record {
    agents = λ i a e h. g.agents i a (f.agents i a e h) h;
    claims = λ i c e h. g.claims i c (f.claims i c e h) h;
  };
}

-- What writes neither agents nor claims.
quiet :
    {A : Type 0} (m : M A)
    → ((db : ClaimsDb) → (m db).1.agents ≡ db.agents)
    → ((db : ClaimsDb) → (m db).1.claims ≡ db.claims)
    → Keeps staying m
quiet m h k = record {
  at = λ db. record {
    agents = λ i a e s. ap (λ xs. find_one (agent_by_id i) xs) (h db) ∙ e;
    claims = λ i c e s. ap (λ xs. find_one (claim_by_id i) xs) (k db) ∙ e;
  };
}

-- An update of claims that are pending.
closes :
    (p : ClaimRequestEntity → Bool) (f : ClaimRequestEntity → ClaimRequestEntity)
    → ((c : ClaimRequestEntity) → p c ≡ true → is_pending c.status ≡ true)
    → ((c : ClaimRequestEntity) → (f c).id ≡ c.id)
    → Keeps staying (update_claims p f)
unfolding update_claims
closes p f unsettled keeps = record {
  at = λ db. record {
    agents = λ i a e s. e;
    claims = λ i c e s. ground (
      arith,
      e,
      unsettled c,
      find_one-update_kept (claim_by_id i) p f (λ d. ground (arith, keeps d)) db.claims,
    );
  };
}

insert_claim-Keeps : (c : ClaimRequestEntity) → Keeps staying (insert_claim c)
unfolding insert_claim
insert_claim-Keeps c = record {
  at = λ db. record {
    agents = λ i a e s. e;
    claims = λ i d e s. ground (arith, e, find_one-insert_row (claim_by_id i) db.claims c);
  };
}

expire_stale-Keeps : (now : ℕ) → Keeps staying (expire_stale_claim_requests now)
unfolding expire_stale_claim_requests
expire_stale-Keeps now = closes (is_stale_claim now) _ (λ c h. ground arith) (λ c. refl)

rotate-Keeps : (now owner : ℕ) (agent : Option ℕ) → Keeps staying (rotate_pending now owner agent)
unfolding rotate_pending
rotate-Keeps now owner agent = closes _ _ (λ c h. ground arith) (λ c. refl)

announce-Keeps :
    (owner agent claim : ℕ) (nonce : Text) → Keeps staying (announce_claim owner agent claim nonce)
unfolding announce_claim
announce-Keeps owner agent claim nonce = quiet _ (λ db. refl) (λ db. refl)

enqueue-Keeps : (event agent : ℕ) → Keeps staying (enqueue_event event agent)
unfolding enqueue_event
enqueue-Keeps event agent = quiet _ (λ db. refl) (λ db. refl)

request_transaction-Keeps :
    (sha256 : Text → Text) (now owner agent : ℕ) (minutes : Unknown) (nonce : Text)
    → Keeps staying (request_transaction sha256 now owner agent minutes nonce)
unfolding request_transaction
request_transaction-Keeps sha256 now owner agent minutes nonce =
    search (keeping, expire_stale-Keeps, rotate-Keeps, insert_claim-Keeps, announce-Keeps) depth 16

pub request_claim-Keeps :
    (sha256 : Text → Text) (now owner agent : ℕ) (minutes : Unknown) (nonce : Text)
    → Keeps staying (request_claim sha256 now owner agent minutes nonce)
unfolding request_claim
request_claim-Keeps sha256 now owner agent minutes nonce =
    search (keeping, request_transaction-Keeps, enqueue-Keeps) depth 14

untargeted_transaction-Keeps :
    (sha256 : Text → Text) (now owner : ℕ) (minutes : Unknown) (nonce : Text)
    → Keeps staying (untargeted_transaction sha256 now owner minutes nonce)
unfolding untargeted_transaction
untargeted_transaction-Keeps sha256 now owner minutes nonce =
    search (keeping, expire_stale-Keeps, rotate-Keeps, insert_claim-Keeps) depth 16

pub request_untargeted-Keeps :
    (sha256 : Text → Text) (now owner : ℕ) (minutes : Unknown) (nonce : Text)
    → Keeps staying (request_untargeted_claim sha256 now owner minutes nonce)
unfolding request_untargeted_claim
request_untargeted-Keeps sha256 now owner minutes nonce =
    search (keeping, untargeted_transaction-Keeps) depth 14

withdraw-Keeps :
    (now owner i : ℕ)
    → Keeps staying (
        update_claims
          (is_withdrawable owner i)
          (closed_claim ClaimRequestStatus.rejected RejectionReason.withdrawn_by_applicant now))
withdraw-Keeps now owner i = closes _ _ (λ c h. ground arith) (λ c. refl)

pub cancel-Keeps : (now owner i : ℕ) → Keeps staying (cancel_claim now owner i)
unfolding cancel_claim
cancel-Keeps now owner i = search (keeping, withdraw-Keeps) depth 14

authenticate-Keeps :
    (sha256 : Text → Text) (token : Text) → Keeps staying (authenticate_agent_token sha256 token)
unfolding authenticate_agent_token
authenticate-Keeps sha256 token = search keeping depth 14

pub control-Keeps :
    (sha256 : Text → Text) (agent : ℕ) (token : Option Text)
    → Keeps staying (assert_control_token sha256 agent token)
unfolding assert_control_token
control-Keeps sha256 agent token = search (keeping, authenticate-Keeps) depth 14

pub preview-Keeps :
    (sha256 : Text → Text) (now owner agent i : ℕ) (token : Option Text)
    → Keeps staying (preview_claim sha256 now owner agent i token)
unfolding preview_claim
preview-Keeps sha256 now owner agent i token = search (keeping, control-Keeps) depth 16
