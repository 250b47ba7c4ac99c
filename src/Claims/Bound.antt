-- ===== src/Claims/Bound.antt =====
-- What a confirmation that succeeds has checked, and what it has done.
use agentschat.Prelude.{
  ℕ, ◌<◌, ◌≡◌, refl, ap, ◌∙◌, true, false, ◌&&◌, inl, inr, List, [], ◌∷◌, Option, some, arith, ◌==◌,
  holds, if◌then◌else◌, Option-cases,
}
use mathlib.Core.Option
use agentschat.Prelude.Table.{find_one, exists, update}
use agentschat.Prelude.Rows.{find_one-update, find_one-update_kept}
use agentschat.Prelude.Action.{ok, Result-cases, in_transaction}
use agentschat.Text.{Text, same_text}
use agentschat.Auth.Store.{user_by_id}
use agentschat.Claims.Store.{
  AgentOwnerType, ClaimRequestStatus, RejectionReason, AgentEntity, AgentConnectionEntity,
  ClaimRequestEntity, ClaimsDb, M, is_self, is_pending,
}
use agentschat.Claims.Requests.{agent_by_id, claim_by_id, closed_claim, update_claims}
use agentschat.Claims.Confirm.{
  Control, Claimant, BindingApproval, approves, is_for_other, is_current, is_control_connection,
  bound_agent, confirmed_claim, is_other_pending, bind_agent, save_audit, bind_account,
  bind_checked, confirm_transaction, assert_control_token,
}

-- What was so before a confirmation.
pub record IsConfirmable (sha256 : Text → Text) (now : ℕ) (owner : Claimant) (agent request : ℕ)
    (challenge token : Text) (control : Control) (db : ClaimsDb) (a : AgentEntity)
    (c : ClaimRequestEntity) (k : AgentConnectionEntity) : Type 0 where
  pub session_current :
      is_current now owner.session (find_one (user_by_id owner.id) db.users) ≡ true
  pub agent_row : find_one (agent_by_id agent) db.agents ≡ some a
  pub unowned : is_self a.owner_type ≡ true
  pub connection : find_one (is_control_connection control agent) db.connections ≡ some k
  pub control_token : same_text k.token_hash (sha256 token) ≡ true
  pub claim_row : find_one (claim_by_id request) db.claims ≡ some c
  pub by_owner : c.requested_by_user_id ≡ owner.id
  pub for_agent : is_for_other agent c ≡ false
  pub is_open : is_pending c.status ≡ true
  pub unexpired : now < c.expires_at
  pub challenge_token : same_text c.challenge_token_hash (sha256 challenge) ≡ true

-- What the checks of the agent and the request let through.
record IsChecked (sha256 : Text → Text) (now : ℕ) (owner : Claimant) (agent : ℕ) (challenge : Text)
    (a : AgentEntity) (c : ClaimRequestEntity) : Type 0 where
  pub unowned : is_self a.owner_type ≡ true
  pub by_owner : c.requested_by_user_id ≡ owner.id
  pub for_agent : is_for_other agent c ≡ false
  pub is_open : is_pending c.status ≡ true
  pub unexpired : now < c.expires_at
  pub challenge_token : same_text c.challenge_token_hash (sha256 challenge) ≡ true

bind_checked-IsChecked :
    (sha256 : Text → Text) (now : ℕ) (owner : Claimant) (agent request : ℕ) (challenge : Text)
    (control : Control) (a : AgentEntity) (c : ClaimRequestEntity) (db : ClaimsDb)
    → (bind_checked sha256 now owner agent request challenge control a c db).0 ≡ ok tt
    → IsChecked sha256 now owner agent challenge a c
      × ((bind_checked sha256 now owner agent request challenge control a c db).1
          ≡ (bind_account now owner.id agent request control.connection_id db).1)
unfolding bind_checked
bind_checked-IsChecked sha256 now owner agent request challenge control a c db h = (
  record {
    unowned = ground arith;
    by_owner = ground arith;
    for_agent = ground arith;
    is_open = ground arith;
    unexpired = ground arith;
    challenge_token = ground arith;
  },
  ground arith,
)

module _ (sha256 : Text → Text) (now : ℕ) (owner : Claimant) (agent request : ℕ)
    (challenge token : Text) (control : Control) (db : ClaimsDb) where
  pub confirm_transaction-IsConfirmable :
      (confirm_transaction sha256 now owner agent request challenge token control db).0 ≡ ok tt
      → (a : AgentEntity) × (c : ClaimRequestEntity) × (k : AgentConnectionEntity) × IsConfirmable
          sha256 now owner agent request challenge token control db a c k
        × ((confirm_transaction sha256 now owner agent request challenge token control db).1
            ≡ (bind_account now owner.id agent request control.connection_id db).1)
  unfolding confirm_transaction
  confirm_transaction-IsConfirmable h =
      elim (Option-cases (find_one (agent_by_id agent) db.agents)) [
        | inl n ↦ absurd (ground arith)
        | inr (a, e) ↦
            elim (Option-cases (find_one (is_control_connection control agent) db.connections)) [
              | inl n ↦ absurd (ground arith)
              | inr (k, f) ↦ elim (Option-cases (find_one (claim_by_id request) db.claims)) [
                | inl n ↦ absurd (ground arith)
                | inr (c, g) ↦
                    let checked =
                      bind_checked-IsChecked sha256 now owner agent request challenge control a c db
                        (ground arith) in
                    (
                      a,
                      c,
                      k,
                      record {
                        session_current = ground arith;
                        agent_row = e;
                        unowned = checked.0.unowned;
                        connection = f;
                        control_token = ground arith;
                        claim_row = g;
                        by_owner = checked.0.by_owner;
                        for_agent = checked.0.for_agent;
                        is_open = checked.0.is_open;
                        unexpired = checked.0.unexpired;
                        challenge_token = checked.0.challenge_token;
                      },
                      ground (arith, checked.1),
                    )
              ]
            ]
      ]

-- What a confirmation has done: the agent is the human's, the request is confirmed, and no other
-- request for the agent is pending.
pub record IsBound (now : ℕ) (owner : Claimant) (agent request : ℕ) (db db' : ClaimsDb)
    (a : AgentEntity) (c : ClaimRequestEntity) : Type 0 where
  pub agents :
      (i : ℕ)
      → find_one (agent_by_id i) db'.agents ≡ (
          if i == agent
          then some (record a { owner_type = AgentOwnerType.human; owner_user_id = some owner.id })
          else find_one (agent_by_id i) db.agents)
  pub claim_row :
      find_one (claim_by_id request) db'.claims
      ≡ some (record c {
        agent_id = some agent;
        status = ClaimRequestStatus.confirmed;
        confirmed_at = some now;
      })
  pub none_pending : exists (λ d. holds d.agent_id agent && is_pending d.status) db'.claims ≡ false

none_pending-closed :
    (now agent request : ℕ) (cs : List ClaimRequestEntity)
    → exists
        (λ d. holds d.agent_id agent && is_pending d.status)
        (update
          (is_other_pending agent request)
          (closed_claim ClaimRequestStatus.expired RejectionReason.agent_bound now)
          (update (claim_by_id request) (confirmed_claim now agent) cs))
      ≡ false
unfolding exists update
none_pending-closed now agent request [] = refl
none_pending-closed now agent request (c ∷ cs) =
    ground (arith, none_pending-closed now agent request cs)

pub bind_account-agents :
    (now owner agent request i : ℕ) (connection : Text) (db : ClaimsDb)
    → find_one (agent_by_id i) (bind_account now owner agent request connection db).1.agents ≡ (
        if i == agent
        then Option.map (bound_agent owner) (find_one (agent_by_id i) db.agents)
        else find_one (agent_by_id i) db.agents)
unfolding bind_account bind_agent update_claims save_audit
bind_account-agents now owner agent request i connection db =
    find_one-update (λ a. a.id) (bound_agent owner) (λ a. refl) i agent db.agents

-- The requests after the writes.
pub bind_account-claims :
    (now owner agent request i : ℕ) (connection : Text) (db : ClaimsDb)
    → find_one (claim_by_id i) (bind_account now owner agent request connection db).1.claims
      ≡ Option.map
          (λ d.
            if is_other_pending agent request d
            then closed_claim ClaimRequestStatus.expired RejectionReason.agent_bound now d
            else d)
          (if i == request
            then Option.map (confirmed_claim now agent) (find_one (claim_by_id i) db.claims)
            else find_one (claim_by_id i) db.claims)
unfolding bind_account bind_agent update_claims save_audit
bind_account-claims now owner agent request i connection db =
    find_one-update_kept (claim_by_id i) (is_other_pending agent request)
      (closed_claim ClaimRequestStatus.expired RejectionReason.agent_bound now) (λ d. refl)
      (update (claim_by_id request) (confirmed_claim now agent) db.claims)
    ∙ ap
        (Option.map (λ d.
          if is_other_pending agent request d
          then closed_claim ClaimRequestStatus.expired RejectionReason.agent_bound now d
          else d))
        (find_one-update (λ d. d.id) (confirmed_claim now agent) (λ d. refl) i request db.claims)

bind_account-none_pending :
    (now owner agent request : ℕ) (connection : Text) (db : ClaimsDb)
    → exists
        (λ d. holds d.agent_id agent && is_pending d.status)
        (bind_account now owner agent request connection db).1.claims
      ≡ false
unfolding bind_account bind_agent update_claims save_audit
bind_account-none_pending now owner agent request connection db =
    none_pending-closed now agent request db.claims

pub bind_account-IsBound :
    (now : ℕ) (owner : Claimant) (agent request : ℕ) (connection : Text) (db : ClaimsDb)
    (a : AgentEntity) (c : ClaimRequestEntity)
    → find_one (agent_by_id agent) db.agents ≡ some a
    → find_one (claim_by_id request) db.claims ≡ some c
    → c.id ≡ request
    → IsBound now owner agent request db
        (bind_account now owner.id agent request connection db).1
        a
        c
bind_account-IsBound now owner agent request connection db a c found asked same = record {
  agents =
      λ i. ground (arith, found, bind_account-agents now owner.id agent request i connection db);
  claim_row =
      ground
        (arith, asked, same, bind_account-claims now owner.id agent request request connection db);
  none_pending = bind_account-none_pending now owner.id agent request connection db;
}

-- What the request said, before the store was looked at.
record IsApproved (sha256 : Text → Text) (owner : Claimant) (agent : ℕ) (token : Option Text)
    (approval : BindingApproval) (db : ClaimsDb) (control : Control) : Type 0 where
  pub controls : (assert_control_token sha256 agent token db).0 ≡ ok control
  pub approved : approves approval owner.id agent ≡ true

pub in_transaction-ok :
    {A : Type 0} (m : M A) (db : ClaimsDb) (r : A)
    → (in_transaction m db).0 ≡ ok r
    → ((m db).0 ≡ ok r) × ((in_transaction m db).1 ≡ (m db).1)
unfolding in_transaction
in_transaction-ok m db r h = elim (Result-cases (m db).0) [
  | inl (s, e) ↦ ground arith
  | inr (x, e) ↦ absurd (ground arith)
]
