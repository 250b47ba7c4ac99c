-- ===== src/Claims/Steps.antt =====
-- Requests on claims, one after the other, accepted or refused.
use agentschat.Prelude.{ℕ, List, [], ◌∷◌, Option}
use agentschat.Text.{Text, Unknown}
use agentschat.Claims.Store.{ClaimsDb}
use agentschat.Claims.Requests.{request_claim, request_untargeted_claim, cancel_claim}
use agentschat.Claims.Confirm.{Claimant, BindingApproval, preview_claim, confirm_claim}

pub data ClaimStep : Type 0 where
  request : ℕ → ℕ → Unknown → Text → ClaimStep
  request_untargeted : ℕ → Unknown → Text → ClaimStep
  cancel : ℕ → ℕ → ClaimStep
  preview : ℕ → ℕ → ℕ → Option Text → ClaimStep
  confirm : Claimant → ℕ → ℕ → Text → Option Text → BindingApproval → ClaimStep

module _ (sha256 : Text → Text) where
  unfoldable pub take_step : ℕ → ClaimStep → ClaimsDb → ClaimsDb
  take_step now (ClaimStep.request owner agent minutes nonce) db =
      (request_claim sha256 now owner agent minutes nonce db).1
  take_step now (ClaimStep.request_untargeted owner minutes nonce) db =
      (request_untargeted_claim sha256 now owner minutes nonce db).1
  take_step now (ClaimStep.cancel owner i) db = (cancel_claim now owner i db).1
  take_step now (ClaimStep.preview owner agent i token) db =
      (preview_claim sha256 now owner agent i token db).1
  take_step now (ClaimStep.confirm owner agent i challenge token approval) db =
      (confirm_claim sha256 now owner agent i challenge token approval db).1

  unfoldable pub take_steps : List (ℕ × ClaimStep) → ClaimsDb → ClaimsDb
  take_steps [] db = db
  take_steps ((now, s) ∷ rest) db = take_steps rest (take_step now s db)
