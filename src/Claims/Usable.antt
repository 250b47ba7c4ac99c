-- ===== src/Claims/Usable.antt =====
-- The link of a new request can be used until it expires, by whoever controls the agent.
use agentschat.Prelude.{
  ℕ, ◌<◌, ◌≡◌, refl, sym, ap, ◌∙◌, true, false, ◌&&◌, inl, inr, List, [], ◌∷◌, Option, none, some,
  arith, ◌==◌, Option-cases,
}
use agentschat.Prelude.Table.{find_one, exists, update}
use agentschat.Prelude.Every.{every}
use agentschat.Prelude.Rows.{find_one-holds, find_one-insert_row}
use agentschat.Prelude.Action.{ok, Result-cases, in_transaction}
use agentschat.Text.{Text, Unknown, trim, non_empty, same_text, same_text_refl, is_space}
use agentschat.Text.Split.{split}
use agentschat.Text.Trimmed.{has_no_space, trim-has_no_space}
use agentschat.Auth.Store.{user_by_id}
use agentschat.Claims.Store.{
  AgentEntity, AgentConnectionEntity, ClaimRequestEntity, ClaimsDb, is_self, is_pending,
}
use agentschat.Claims.Requests.{
  agent_by_id, claim_by_id, build_challenge_token, request_claim, update_claims,
}
use agentschat.Claims.Confirm.{
  Control, Claimant, BindingApproval, approves, is_current, connection_by_id, is_control_connection,
  connection_id_of, authenticate_agent_token, assert_control_token, bind_agent, save_audit,
  bind_account, bind_checked, has_token, confirm_transaction, confirm_claim, token_or_empty,
}
use agentschat.Claims.Link.{rotated, request_claim-IsMade}
use agentschat.Claims.Ownership.{assert_control-same}

same_text-eq : (s t : Text) → same_text s t ≡ true → s ≡ t
unfolding same_text
same_text-eq [] [] h = refl
same_text-eq [] (d ∷ t) h = absurd (ground arith)
same_text-eq (c ∷ s) [] h = absurd (ground arith)
same_text-eq (c ∷ s) (d ∷ t) h = ground (arith, same_text-eq s t)

find_connection :
    (i : Text) (agent : ℕ) (ks : List AgentConnectionEntity) (k : AgentConnectionEntity)
    → find_one (connection_by_id i) ks ≡ some k
    → k.agent_id ≡ agent
    → find_one (λ c. same_text c.id i && c.agent_id == agent) ks ≡ some k
unfolding find_one
find_connection i agent [] k e h = absurd (ground arith)
find_connection i agent (c ∷ ks) k e h = ground (arith, find_connection i agent ks k)

module _ (sha256 : Text → Text) (agent : ℕ) (control : Control) (db : ClaimsDb) where
  authenticated :
      (t : Text)
      → (authenticate_agent_token sha256 t db).0 ≡ ok control
      → control.agent_id ≡ agent
      → has_token (sha256 t) (find_one (is_control_connection control agent) db.connections) ≡ true
  unfolding authenticate_agent_token
  authenticated t h e = elim (Option-cases (connection_id_of (split b'.' t))) [
    | inl n ↦ absurd (ground arith)
    | inr (i, f) ↦ elim (Option-cases (find_one (connection_by_id i) db.connections)) [
      | inl n ↦ absurd (ground arith)
      | inr (k, g) ↦
          let same : k.id ≡ i =
            same_text-eq k.id i (find_one-holds (connection_by_id i) db.connections k g) in
          let facts : (control.connection_id ≡ k.id)
              × (k.agent_id ≡ agent)
              × (same_text (sha256 t) k.token_hash ≡ true) =
            (ground arith, ground arith, ground arith) in
          let hash : sha256 t ≡ k.token_hash = same_text-eq (sha256 t) k.token_hash facts.2 in
          let found = find_connection i agent db.connections k g facts.1 in
          let fits : same_text k.token_hash (sha256 t) ≡ true =
            ap (same_text k.token_hash) hash ∙ same_text_refl k.token_hash in
          ap
            (λ j.
              has_token (sha256 t)
                (find_one (λ c. same_text c.id j && c.agent_id == agent) db.connections))
            (facts.0 ∙ same)
          ∙ (ap (has_token (sha256 t)) found ∙ fits)
    ]
  ]

  assert_control_token-has_token :
      (token : Option Text)
      → (assert_control_token sha256 agent token db).0 ≡ ok control
      → has_token
          (sha256 (token_or_empty token))
          (find_one (is_control_connection control agent) db.connections)
        ≡ true
  unfolding assert_control_token
  assert_control_token-has_token none h = absurd (ground arith)
  assert_control_token-has_token (some []) h = absurd (ground arith)
  assert_control_token-has_token (some (c ∷ t)) h =
      elim (Result-cases (authenticate_agent_token sha256 (c ∷ t) db).0) [
        | inr (x, e) ↦ absurd (ground arith)
        | inl (k, e) ↦ authenticated (c ∷ t) (ground arith) (ground arith)
      ]

bind_checked-ok :
    (sha256 : Text → Text) (now : ℕ) (owner : Claimant) (agent request : ℕ) (challenge : Text)
    (control : Control) (a : AgentEntity) (c : ClaimRequestEntity) (db : ClaimsDb)
    → is_self a.owner_type ≡ true
    → c.requested_by_user_id ≡ owner.id
    → c.agent_id ≡ some agent
    → is_pending c.status ≡ true
    → now < c.expires_at
    → c.challenge_token_hash ≡ sha256 challenge
    → (bind_checked sha256 now owner agent request challenge control a c db).0 ≡ ok tt
unfolding bind_checked bind_account bind_agent update_claims save_audit
bind_checked-ok sha256 now owner agent request challenge control a c db self mine for_it waiting
      fresh hash =
    let same : same_text c.challenge_token_hash (sha256 challenge) ≡ true =
      ap (same_text c.challenge_token_hash) (sym hash) ∙ same_text_refl c.challenge_token_hash in
    ground (arith, same)

confirm_transaction-ok :
    (sha256 : Text → Text) (now : ℕ) (owner : Claimant) (agent request : ℕ) (challenge token : Text)
    (control : Control) (a : AgentEntity) (c : ClaimRequestEntity) (db : ClaimsDb)
    → is_current now owner.session (find_one (user_by_id owner.id) db.users) ≡ true
    → find_one (agent_by_id agent) db.agents ≡ some a
    → has_token (sha256 token) (find_one (is_control_connection control agent) db.connections)
      ≡ true
    → find_one (claim_by_id request) db.claims ≡ some c
    → (bind_checked sha256 now owner agent request challenge control a c db).0 ≡ ok tt
    → (confirm_transaction sha256 now owner agent request challenge token control db).0 ≡ ok tt
unfolding confirm_transaction
confirm_transaction-ok sha256 now owner agent request challenge token control a c db h i j k l =
    ground (arith, h, i, j, k, l)

-- The token of a link has no white space.
link_has_no_space :
    (nonce : Text) → has_no_space nonce ≡ true → has_no_space (build_challenge_token nonce) ≡ true
unfolding build_challenge_token every is_space
link_has_no_space nonce h = ground arith

non_empty_link :
    (nonce : Text) → non_empty (build_challenge_token nonce) ≡ some (build_challenge_token nonce)
unfolding build_challenge_token
non_empty_link nonce = refl

rotated-fresh :
    (now owner agent i : ℕ) (cs : List ClaimRequestEntity)
    → exists (claim_by_id i) cs ≡ false
    → find_one (claim_by_id i) (rotated now owner agent cs) ≡ none
unfolding find_one exists update
rotated-fresh now owner agent i [] h = refl
rotated-fresh now owner agent i (c ∷ cs) h = ground (arith, rotated-fresh now owner agent i cs)

confirm_claim-ok :
    (sha256 : Text → Text) (now : ℕ) (owner : Claimant) (agent request : ℕ) (challenge : Text)
    (token : Option Text) (approval : BindingApproval) (db : ClaimsDb) (control : Control)
    → (assert_control_token sha256 agent token db).0 ≡ ok control
    → approves approval owner.id agent ≡ true
    → non_empty (trim challenge) ≡ some challenge
    → (confirm_transaction sha256 now owner agent request challenge
        (token_or_empty token)
        control
        db).0
      ≡ ok tt
    → (confirm_claim sha256 now owner agent request challenge token approval db).0 ≡ ok tt
unfolding confirm_claim in_transaction
confirm_claim-ok sha256 now owner agent request challenge token approval db control h i j k =
    ground (arith, (assert_control-same sha256 agent token).at db)

-- The link that a human is given can be used by that human until it expires, if nothing else happens:
-- with a current session, a token that controls the agent, and an approval that names the two. The id of
-- the request is new, and its token has no white space.
pub confirm_claim-request_claim :
    (sha256 : Text → Text) (now later : ℕ) (owner : Claimant) (agent : ℕ) (minutes : Unknown)
    (nonce : Text) (token : Option Text) (approval : BindingApproval) (db : ClaimsDb)
    (c : ClaimRequestEntity) (link : Text) (control : Control)
    → exists (claim_by_id db.next_id) db.claims ≡ false
    → has_no_space nonce ≡ true
    → (request_claim sha256 now owner.id agent minutes nonce db).0 ≡ ok (c, link)
    → is_current later owner.session (find_one (user_by_id owner.id) db.users) ≡ true
    → (assert_control_token sha256 agent token
        (request_claim sha256 now owner.id agent minutes nonce db).1).0
      ≡ ok control
    → approves approval owner.id agent ≡ true
    → later < c.expires_at
    → (confirm_claim sha256 later owner agent c.id link token approval
        (request_claim sha256 now owner.id agent minutes nonce db).1).0
      ≡ ok tt
confirm_claim-request_claim sha256 now later owner agent minutes nonce token approval db c link
      control new clean h current controls approved fresh =
    let asked : ClaimsDb = (request_claim sha256 now owner.id agent minutes nonce db).1 in
    let (a, ttl, made, is_link) =
      request_claim-IsMade sha256 now owner.id agent minutes nonce db c link h in
    let claim_row : find_one (claim_by_id c.id) asked.claims ≡ some c = ground (
      arith,
      made.claims,
      made.made,
      find_one-insert_row (claim_by_id c.id) (rotated now owner.id agent db.claims) c,
      rotated-fresh now owner.id agent db.next_id db.claims new,
    ) in
    let checked =
      bind_checked-ok sha256 later owner agent c.id link control a c asked made.unowned
        (ground (arith, made.made)) (ground (arith, made.made)) (ground (arith, made.made)) fresh
        (ground (arith, made.made, is_link)) in
    let done =
      confirm_transaction-ok sha256 later owner agent c.id link (token_or_empty token) control a c
        asked
        (ap (λ us. is_current later owner.session (find_one (user_by_id owner.id) us)) made.users
          ∙ current)
        (ap (λ xs. find_one (agent_by_id agent) xs) made.agents ∙ made.agent_row)
        (assert_control_token-has_token sha256 agent control asked token controls) claim_row
        checked in
    let trimmed : non_empty (trim link) ≡ some link =
      ap (λ s. non_empty (trim s)) is_link
      ∙ (ap non_empty
            (trim-has_no_space (build_challenge_token nonce) (link_has_no_space nonce clean))
          ∙ (non_empty_link nonce ∙ ap some (sym is_link))) in
    confirm_claim-ok sha256 later owner agent c.id link token approval asked control controls
      approved trimmed done
