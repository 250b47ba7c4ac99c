-- ===== src/Claims/Revoked.antt =====
-- Claims after a password reset: the sessions of before confirm nothing.
use agentschat.Prelude.{
  ℕ, ◌≡◌, refl, sym, ap, ◌∙◌, true, false, inl, inr, ◌∷◌, Option, none, some, arith,
}
use agentschat.Prelude.Table.{find_one}
use agentschat.Prelude.Rows.{find_one-holds}
use agentschat.Prelude.Action.{ok, err, is_ok, Result-cases}
use agentschat.Text.{Text}
use agentschat.Auth.Store.{UserEntity, AuthDb, Refusal, Platform, user_by_id}
use agentschat.Auth.Accounts.{AuthOperationResponse, to_authenticated_human, confirm_password_reset}
use agentschat.Auth.Tokens.{Session, HumanTokenPayload, verify_token, authenticate_human_token}
use agentschat.Auth.Sessions.{session_of, authenticate-verified}
use agentschat.Auth.Revoked.{has_distinct_users, confirm_password_reset-revokes}
use agentschat.Claims.Store.{ClaimsDb}
use agentschat.Claims.Confirm.{Claimant, BindingApproval, is_current, confirm_claim}
use agentschat.Claims.Ownership.{confirm_claim-IsConfirmed}

-- The human, signed in by the session.
abbrev pub claimant_of : Session → Claimant
claimant_of s = record { id = s.human.id; session = some s }

session_of-signed :
    (p : HumanTokenPayload) (o : Option UserEntity) (s : Session)
    → session_of p o ≡ ok s
    → (u : UserEntity) × (o ≡ some u) × (s.human.id ≡ u.id) × (s.version ≡ p.ver)
unfolding to_authenticated_human
session_of-signed p none s h = absurd (ground arith)
session_of-signed p (some u) s h = (u, refl, ground arith, ground arith)

session_of-not_current :
    (p : HumanTokenPayload) (o : Option UserEntity) (s : Session) (later : ℕ)
    → session_of p o ≡ err Refusal.token_not_current
    → s.version ≡ p.ver
    → is_current later (some s) o ≡ false
session_of-not_current p none s later h v = absurd (ground arith)
session_of-not_current p (some u) s later h v = ground arith

not_current :
    (pf : Platform) (now later : ℕ) (token : Text) (s : Session) (db db' : AuthDb)
    → (authenticate_human_token pf now token db).0 ≡ ok s
    → (authenticate_human_token pf now token db').0 ≡ err Refusal.token_not_current
    → is_current later (some s) (find_one (user_by_id s.human.id) db'.users) ≡ false
unfolding authenticate_human_token
not_current pf now later token s db db' before after =
    elim (Result-cases (verify_token pf now token)) [
      | inr (x, e) ↦ absurd (ground arith)
      | inl (p, e) ↦
          let (u, found, same_id, version) =
            session_of-signed p (find_one (user_by_id p.sub) db.users) s
              (sym (authenticate-verified pf now token db p e) ∙ before) in
          let sub : s.human.id ≡ p.sub =
            ground (arith, same_id, find_one-holds (user_by_id p.sub) db.users u found) in
          ap (λ i. is_current later (some s) (find_one (user_by_id i) db'.users)) sub
          ∙ session_of-not_current p (find_one (user_by_id p.sub) db'.users) s later
              (sym (authenticate-verified pf now token db' p e) ∙ after) version
    ]

-- Where ids of users are distinct, a session that a token gave before its human's password was reset
-- confirms no claim afterwards.
pub confirm_claim-confirm_password_reset :
    (pf : Platform) (now : ℕ) (email code password salt : Text) (db : AuthDb)
    (r : AuthOperationResponse) (signed_at : ℕ) (token : Text) (s : Session) (sha256 : Text → Text)
    (later agent request : ℕ) (challenge : Text) (control_token : Option Text)
    (approval : BindingApproval) (claims : ClaimsDb)
    → has_distinct_users db ≡ true
    → (confirm_password_reset pf now email code password salt db).0 ≡ ok r
    → (confirm_password_reset pf now email code password salt db).1.invalidated
      ≡ s.human.id ∷ db.invalidated
    → (authenticate_human_token pf signed_at token db).0 ≡ ok s
    → claims.users ≡ (confirm_password_reset pf now email code password salt db).1.users
    → is_ok
        (confirm_claim sha256 later
          (claimant_of s)
          agent
          request
          challenge
          control_token
          approval
          claims).0
      ≡ false
confirm_claim-confirm_password_reset pf now email code password salt db r signed_at token s sha256
      later agent request challenge control_token approval claims ids h told signed same_users =
    let after : AuthDb = (confirm_password_reset pf now email code password salt db).1 in
    let revoked : (authenticate_human_token pf signed_at token after).0
        ≡ err Refusal.token_not_current =
      confirm_password_reset-revokes pf now email code password salt db r s.human.id signed_at token
        s ids h told signed
      ∙ ground arith in
    let stale = not_current pf signed_at later token s db after signed revoked in
    elim (Result-cases
      (confirm_claim sha256 later (claimant_of s) agent request challenge control_token approval
        claims).0) [
          | inr (x, e) ↦ ap is_ok e
          | inl (done, e) ↦
              let (control, trimmed, a, c, k, confirmed) =
                confirm_claim-IsConfirmed sha256 later (claimant_of s) agent request challenge
                  control_token approval claims e in
              ap is_ok e
              ∙ (sym confirmed.before.session_current
                  ∙ (ap (λ us. is_current later (some s) (find_one (user_by_id s.human.id) us))
                        same_users
                      ∙ stale))
        ]
