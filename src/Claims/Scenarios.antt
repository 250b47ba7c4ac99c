-- ===== src/Claims/Scenarios.antt =====
-- The theorems on a concrete claim: Ann claims agent 7, which nobody owns.
use agentschat.Prelude.{ℕ, ◌*◌, ◌≡◌, refl, true, false, List, [], ◌∷◌, none, some, arith}
use agentschat.Prelude.Table.{find_one, find_by, exists, update}
use agentschat.Prelude.Distinct.{distinct}
use agentschat.Prelude.Every.{every}
use agentschat.Prelude.Action.{ok, is_ok, in_transaction}
use agentschat.Text.{Text, Unknown, codes, is_space, same_text}
use agentschat.Text.Split.{split}
use agentschat.Auth.Accounts.{AuthOperationResponse}
use agentschat.Auth.Tokens.{sign_human_token}
use agentschat.Auth.Revoked.{has_distinct_users}
use agentschat.Auth.Scenarios.{
  platform, ann, one_code, after_reset, ann_address, right_code, new_password, session,
  reset_succeeds, reset_tells, signed_in,
}
use agentschat.Claims.Store.{
  AgentOwnerType, ClaimRequestStatus, AgentEntity, AgentConnectionEntity, ClaimRequestEntity,
  ClaimsDb,
}
use agentschat.Claims.Requests.{
  is_pending_of, resolve_claim_request_ttl_ms, update_claims, expire_stale_claim_requests,
  rotate_pending, build_challenge_token, new_claim, insert_claim, announce_claim,
  request_transaction, request_claim, enqueue_event, agent_by_id, claim_by_id,
}
use agentschat.Claims.Confirm.{
  Control, Claimant, BindingApproval, authenticate_agent_token, assert_control_token, confirm_claim,
  bound_agent,
}
use agentschat.Claims.Steps.{ClaimStep, take_steps}
use agentschat.Claims.Ownership.{IsConfirmed, confirm_claim-IsConfirmed}
use agentschat.Claims.Settled.{take_steps_keep_owner, take_steps_keep_closed}
use agentschat.Claims.Link.{request_claim_is_only}
use agentschat.Claims.Usable.{confirm_claim-request_claim}
use agentschat.Claims.Revoked.{claimant_of, confirm_claim-confirm_password_reset}

abbrev sha256 : Text → Text
sha256 s = b'#' ∷ s

abbrev token : Text
token = codes "fed_v1.k.abc"

abbrev the_agent : AgentEntity
the_agent = record { id = 7; owner_type = AgentOwnerType.self; owner_user_id = none }

abbrev connection : AgentConnectionEntity
connection = record { id = codes "k"; agent_id = 7; token_hash = sha256 token }

abbrev no_claim : ClaimsDb
no_claim = record {
  users = ann ∷ [];
  agents = the_agent ∷ [];
  connections = connection ∷ [];
  claims = [];
  events = [];
  audits = [];
  delivered = [];
  next_id = 20;
}

abbrev nonce : Text
nonce = codes "f00"

abbrev claim : ClaimRequestEntity
claim = new_claim sha256 1500 1 (some 7) (15 * 60 * 1000) nonce 20

abbrev link : Text
link = codes "claimreq.v1.f00"

abbrev claimant : Claimant
claimant = claimant_of session

abbrev approval : BindingApproval
approval = record {
  purpose = some (codes "bind_account");
  account_id = some 1;
  agent_id = some 7;
  approved = true;
}

abbrev control : Control
control = record { agent_id = 7; connection_id = codes "k" }

requested : (request_claim sha256 1500 1 7 (Unknown.number 15) nonce no_claim).0 ≡ ok (claim, link)
unfolding request_claim in_transaction request_transaction resolve_claim_request_ttl_ms find_one
    expire_stale_claim_requests update_claims rotate_pending insert_claim announce_claim
    enqueue_event build_challenge_token update
requested = refl

request_claim_is_only_example :
    find_by
      (is_pending_of 1 (some 7))
      (request_claim sha256 1500 1 7 (Unknown.number 15) nonce no_claim).1.claims
    ≡ claim ∷ []
request_claim_is_only_example =
    request_claim_is_only sha256 1500 1 7 (Unknown.number 15) nonce no_claim claim link requested

abbrev asked : ClaimsDb
asked = (request_claim sha256 1500 1 7 (Unknown.number 15) nonce no_claim).1

controlled : (assert_control_token sha256 7 (some token) asked).0 ≡ ok control
unfolding assert_control_token authenticate_agent_token split find_one exists same_text
    request_claim in_transaction request_transaction resolve_claim_request_ttl_ms
    expire_stale_claim_requests update_claims rotate_pending insert_claim announce_claim
    enqueue_event update
controlled = refl

confirmed : (confirm_claim sha256 1600 claimant 7 20 link (some token) approval asked).0 ≡ ok tt
unfolding exists every is_space find_one same_text
confirmed =
    confirm_claim-request_claim sha256 1500 1600 claimant 7 (Unknown.number 15) nonce (some token)
      approval no_claim claim link control refl refl requested refl controlled refl (omega arith)

confirm_claim-request_claim_example :
    (confirm_claim sha256 1600 claimant 7 20 link (some token) approval asked).0 ≡ ok tt
unfolding exists every is_space find_one same_text
confirm_claim-request_claim_example =
    confirm_claim-request_claim sha256 1500 1600 claimant 7 (Unknown.number 15) nonce (some token)
      approval no_claim claim link control refl refl requested refl controlled refl (omega arith)

confirm_claim-IsConfirmed_example :
    (k : Control) × (trimmed : Text) × (a : AgentEntity) × (c : ClaimRequestEntity)
    × (n : AgentConnectionEntity) × IsConfirmed sha256 1600 claimant 7 20 link
        (some token)
        approval
        asked
        (confirm_claim sha256 1600 claimant 7 20 link (some token) approval asked).1
        k
        trimmed
        a
        c
        n
confirm_claim-IsConfirmed_example =
    confirm_claim-IsConfirmed sha256 1600 claimant 7 20 link (some token) approval asked confirmed

-- Agent 7 is Ann's, by a request that was confirmed; human 2 tries to claim it.
abbrev owned : ClaimsDb
owned = record no_claim {
  agents = bound_agent 1 the_agent ∷ [];
  claims = record claim { status = ClaimRequestStatus.confirmed; confirmed_at = some 1600 } ∷ [];
}

abbrev later_steps : List (ℕ × ClaimStep)
later_steps =
    (2000, ClaimStep.request 2 7 Unknown.undefined nonce)
    ∷ (2100, ClaimStep.request_untargeted 2 Unknown.undefined nonce)
    ∷ (2200, ClaimStep.confirm (record { id = 2; session = none }) 7 20 link (some token) approval)
    ∷ []

take_steps_keep_owner_example :
    find_one (agent_by_id 7) (take_steps sha256 later_steps owned).agents
    ≡ some (bound_agent 1 the_agent)
unfolding find_one
take_steps_keep_owner_example =
    take_steps_keep_owner sha256 later_steps owned 7 (bound_agent 1 the_agent) refl refl

take_steps_keep_closed_example :
    find_one (claim_by_id 20) (take_steps sha256 later_steps owned).claims
    ≡ some (record claim { status = ClaimRequestStatus.confirmed; confirmed_at = some 1600 })
unfolding find_one
take_steps_keep_closed_example =
    take_steps_keep_closed sha256 later_steps owned 20
      (record claim { status = ClaimRequestStatus.confirmed; confirmed_at = some 1600 }) refl refl

-- Ann's password is reset while the request is pending.
abbrev asked_and_reset : ClaimsDb
asked_and_reset = record asked { users = after_reset.users }

confirm_claim-confirm_password_reset_example :
    is_ok (confirm_claim sha256 2600 claimant 7 20 link (some token) approval asked_and_reset).0
    ≡ false
unfolding has_distinct_users distinct exists
confirm_claim-confirm_password_reset_example =
    confirm_claim-confirm_password_reset platform 2000 ann_address right_code new_password
      (codes "ff") one_code AuthOperationResponse.password_updated 2500
      (sign_human_token platform 1000 ann) session sha256 2600 7 20 link (some token) approval
      asked_and_reset refl reset_succeeds reset_tells signed_in refl
