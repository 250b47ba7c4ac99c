-- ===== src/Auth/Sessions.antt =====
-- The session of a token that was verified.
use agentschat.Prelude.{
  ℕ, ◌≡◌, inl, inr, Option, none, some, arith, ◌==◌, if◌then◌else◌, Option-cases,
}
use agentschat.Prelude.Table.{find_one}
use agentschat.Prelude.Action.{Result, ok, err}
use agentschat.Text.{Text}
use agentschat.Auth.Store.{UserEntity, AuthDb, Refusal, Platform, user_by_id}
use agentschat.Auth.Accounts.{to_authenticated_human}
use agentschat.Auth.Tokens.{Session, HumanTokenPayload, verify_token, authenticate_human_token}

-- A token is judged by the row of its user.
abbrev pub session_of : HumanTokenPayload → Option UserEntity → Result Refusal Session
session_of p none = err Refusal.account_not_found
session_of p (some u) =
    if p.ver == u.auth_token_version
    then ok (record { human = to_authenticated_human u; version = p.ver; expires_at = p.exp })
    else err Refusal.token_not_current

pub authenticate-verified :
    (pf : Platform) (now : ℕ) (token : Text) (db : AuthDb) (p : HumanTokenPayload)
    → verify_token pf now token ≡ ok p
    → (authenticate_human_token pf now token db).0
      ≡ session_of p (find_one (user_by_id p.sub) db.users)
unfolding authenticate_human_token
authenticate-verified pf now token db p h =
    elim (Option-cases (find_one (user_by_id p.sub) db.users)) [
      | inl n ↦ ground arith
      | inr (u, e) ↦ ground arith
    ]
