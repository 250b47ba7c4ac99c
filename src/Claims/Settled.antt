-- ===== src/Claims/Settled.antt =====
-- What no request changes: the owner of an agent that has one, and a claim that is over.
use agentschat.Prelude.{ℕ, ◌≡◌, sym, subst, false, List, [], ◌∷◌, Option, some, arith}
use agentschat.Prelude.Table.{find_one}
use agentschat.Prelude.Keeps.{Keeps, Keeps-in_transaction, keeping}
use agentschat.Prelude.Action.{in_transaction}
use agentschat.Text.{Text}
use agentschat.Claims.Store.{
  AgentEntity, AgentConnectionEntity, ClaimRequestEntity, ClaimsDb, is_self, is_pending,
}
use agentschat.Claims.Requests.{agent_by_id, claim_by_id}
use agentschat.Claims.Confirm.{
  Control, Claimant, BindingApproval, bind_account, confirm_transaction, confirm_claim,
}
use agentschat.Claims.Bound.{
  IsConfirmable, confirm_transaction-IsConfirmable, bind_account-agents, bind_account-claims,
}
use agentschat.Claims.Steps.{ClaimStep, take_step, take_steps}
use agentschat.Claims.Keep.{
  Stays, staying, request_claim-Keeps, request_untargeted-Keeps, cancel-Keeps, control-Keeps,
  preview-Keeps,
}

bind_account-Stays :
    (sha256 : Text → Text) (now : ℕ) (owner : Claimant) (agent request : ℕ) (challenge token : Text)
    (control : Control) (db : ClaimsDb) (a : AgentEntity) (c : ClaimRequestEntity)
    (k : AgentConnectionEntity)
    → IsConfirmable sha256 now owner agent request challenge token control db a c k
    → Stays db (bind_account now owner.id agent request control.connection_id db).1
bind_account-Stays sha256 now owner agent request challenge token control db a c k h = record {
  agents = λ i b e s. ground (
    arith,
    h.agent_row,
    h.unowned,
    bind_account-agents now owner.id agent request i control.connection_id db,
  );
  claims = λ i d e s. ground (
    arith,
    h.claim_row,
    h.is_open,
    bind_account-claims now owner.id agent request i control.connection_id db,
  );
}

confirm_transaction-Keeps :
    (sha256 : Text → Text) (now : ℕ) (owner : Claimant) (agent request : ℕ) (challenge token : Text)
    (control : Control)
    → Keeps staying (
        in_transaction (confirm_transaction sha256 now owner agent request challenge token control))
confirm_transaction-Keeps sha256 now owner agent request challenge token control =
    Keeps-in_transaction staying
      (confirm_transaction sha256 now owner agent request challenge token control)
      (λ db r h.
        let (a, c, k, before, wrote) =
          confirm_transaction-IsConfirmable sha256 now owner agent request challenge token control
            db h in
        subst (λ t. Stays db t) (sym wrote)
          (bind_account-Stays sha256 now owner agent request challenge token control db a c k
            before))

confirm-Keeps :
    (sha256 : Text → Text) (now : ℕ) (owner : Claimant) (agent request : ℕ) (challenge : Text)
    (token : Option Text) (approval : BindingApproval)
    → Keeps staying (confirm_claim sha256 now owner agent request challenge token approval)
unfolding confirm_claim
confirm-Keeps sha256 now owner agent request challenge token approval =
    search (keeping, control-Keeps, confirm_transaction-Keeps) depth 14

take_step-Stays :
    (sha256 : Text → Text) (now : ℕ) (s : ClaimStep) (db : ClaimsDb)
    → Stays db (take_step sha256 now s db)
unfolding take_step
take_step-Stays sha256 now (ClaimStep.request owner agent minutes nonce) db =
    (request_claim-Keeps sha256 now owner agent minutes nonce).at db
take_step-Stays sha256 now (ClaimStep.request_untargeted owner minutes nonce) db =
    (request_untargeted-Keeps sha256 now owner minutes nonce).at db
take_step-Stays sha256 now (ClaimStep.cancel owner i) db = (cancel-Keeps now owner i).at db
take_step-Stays sha256 now (ClaimStep.preview owner agent i token) db =
    (preview-Keeps sha256 now owner agent i token).at db
take_step-Stays sha256 now (ClaimStep.confirm owner agent i challenge token approval) db =
    (confirm-Keeps sha256 now owner agent i challenge token approval).at db

take_steps-Stays :
    (sha256 : Text → Text) (steps : List (ℕ × ClaimStep)) (db : ClaimsDb)
    → Stays db (take_steps sha256 steps db)
unfolding take_steps
take_steps-Stays sha256 [] db = staying.le_refl db
take_steps-Stays sha256 ((now, s) ∷ rest) db =
    staying.le_trans db (take_step sha256 now s db) _ (take_step-Stays sha256 now s db)
      (take_steps-Stays sha256 rest (take_step sha256 now s db))

-- Whatever requests on claims follow, an agent that belongs to a human stays as it is, with its owner.
pub take_steps_keep_owner :
    (sha256 : Text → Text) (steps : List (ℕ × ClaimStep)) (db : ClaimsDb) (i : ℕ) (a : AgentEntity)
    → find_one (agent_by_id i) db.agents ≡ some a
    → is_self a.owner_type ≡ false
    → find_one (agent_by_id i) (take_steps sha256 steps db).agents ≡ some a
take_steps_keep_owner sha256 steps db i a = (take_steps-Stays sha256 steps db).agents i a

-- Whatever requests on claims follow, a request that was confirmed, rejected or expired stays as it is.
pub take_steps_keep_closed :
    (sha256 : Text → Text) (steps : List (ℕ × ClaimStep)) (db : ClaimsDb) (i : ℕ)
    (c : ClaimRequestEntity)
    → find_one (claim_by_id i) db.claims ≡ some c
    → is_pending c.status ≡ false
    → find_one (claim_by_id i) (take_steps sha256 steps db).claims ≡ some c
take_steps_keep_closed sha256 steps db i c = (take_steps-Stays sha256 steps db).claims i c
