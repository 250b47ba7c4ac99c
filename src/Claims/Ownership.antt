-- ===== src/Claims/Ownership.antt =====
-- A confirmation gives an agent to a human only with the consent of both: a request of the human, the
-- token that controls the agent, and an approval that names the two.
use agentschat.Prelude.{ℕ, ◌≡◌, sym, subst, true, inl, inr, Option, some, arith, Option-cases}
use agentschat.Prelude.Keeps.{Keeps, unchanged, keeping}
use agentschat.Prelude.Rows.{find_one-holds}
use agentschat.Prelude.Action.{ok, Result-cases}
use agentschat.Text.{Text, trim, non_empty}
use agentschat.Claims.Store.{AgentEntity, AgentConnectionEntity, ClaimRequestEntity, ClaimsDb}
use agentschat.Claims.Requests.{claim_by_id}
use agentschat.Claims.Confirm.{
  Control, Claimant, BindingApproval, approves, authenticate_agent_token, assert_control_token,
  bind_account, confirm_transaction, confirm_claim, token_or_empty,
}
use agentschat.Claims.Bound.{
  IsConfirmable, IsBound, confirm_transaction-IsConfirmable, bind_account-IsBound,
  in_transaction-ok,
}

authenticate-same :
    (sha256 : Text → Text) (token : Text)
    → Keeps (unchanged (λ db. db)) (authenticate_agent_token sha256 token)
unfolding authenticate_agent_token
authenticate-same sha256 token = search keeping depth 14

pub assert_control-same :
    (sha256 : Text → Text) (agent : ℕ) (token : Option Text)
    → Keeps (unchanged (λ db. db)) (assert_control_token sha256 agent token)
unfolding assert_control_token
assert_control-same sha256 agent token = search (keeping, authenticate-same) depth 14

-- The consent to a confirmation, what was so before it, and what it did.
pub record IsConfirmed (sha256 : Text → Text) (now : ℕ) (owner : Claimant) (agent request : ℕ)
    (challenge : Text) (token : Option Text) (approval : BindingApproval) (db db' : ClaimsDb)
    (control : Control) (trimmed : Text) (a : AgentEntity) (c : ClaimRequestEntity)
    (k : AgentConnectionEntity) : Type 0 where
  pub controls : (assert_control_token sha256 agent token db).0 ≡ ok control
  pub approved : approves approval owner.id agent ≡ true
  pub challenge_given : non_empty (trim challenge) ≡ some trimmed
  pub before :
      IsConfirmable sha256 now owner agent request trimmed (token_or_empty token) control db a c k
  pub after : IsBound now owner agent request db db' a c

-- If a claim is confirmed, the token controls the agent, the approval names the human and the agent,
-- the session is current, the agent had no owner, and the request was pending, unexpired, the human's
-- own, for this agent or for none, with the token of its link. The agent is then the human's, the
-- request is confirmed, no request for the agent is pending, and no other agent has changed.
pub confirm_claim-IsConfirmed :
    (sha256 : Text → Text) (now : ℕ) (owner : Claimant) (agent request : ℕ) (challenge : Text)
    (token : Option Text) (approval : BindingApproval) (db : ClaimsDb)
    → (confirm_claim sha256 now owner agent request challenge token approval db).0 ≡ ok tt
    → (control : Control) × (trimmed : Text) × (a : AgentEntity) × (c : ClaimRequestEntity)
      × (k : AgentConnectionEntity) × IsConfirmed sha256 now owner agent request challenge token
          approval db
          (confirm_claim sha256 now owner agent request challenge token approval db).1
          control
          trimmed
          a
          c
          k
unfolding confirm_claim
confirm_claim-IsConfirmed sha256 now owner agent request challenge token approval db h =
    elim (Result-cases (assert_control_token sha256 agent token db).0) [
      | inr (x, e) ↦ absurd (ground arith)
      | inl (control, e) ↦ elim (Option-cases (non_empty (trim challenge))) [
        | inl n ↦ absurd (ground arith)
        | inr (trimmed, f) ↦
            let same = (assert_control-same sha256 agent token).at db in
            let body =
              confirm_transaction sha256 now owner agent request trimmed (token_or_empty token)
                control in
            let done = in_transaction-ok body db tt (ground (arith, same)) in
            let (a, c, k, before, wrote) =
              confirm_transaction-IsConfirmable sha256 now owner agent request trimmed
                (token_or_empty token) control db done.0 in
            let bound =
              bind_account-IsBound now owner agent request control.connection_id db a c
                before.agent_row before.claim_row
                (ground
                  (arith, find_one-holds (claim_by_id request) db.claims c before.claim_row)) in
            let wrote_all : (confirm_claim sha256 now owner agent request challenge token approval
                  db).1
                ≡ (bind_account now owner.id agent request control.connection_id db).1 =
              ground (arith, same, done.1, wrote) in
            (
              control,
              trimmed,
              a,
              c,
              k,
              record {
                controls = e;
                approved = ground (arith, same);
                challenge_given = f;
                before = before;
                after = subst (λ t. IsBound now owner agent request db t a c) (sym wrote_all) bound;
              },
            )
      ]
    ]
