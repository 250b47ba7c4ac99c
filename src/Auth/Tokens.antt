-- ===== src/Auth/Tokens.antt =====
-- auth.service.ts: the tokens that sign a human in. A token is `v1.`, the payload and its signature.
use agentschat.Prelude.{
  ℕ, ◌+◌, ◌*◌, Bool, true, false, not, ◌||◌, List, [], ◌∷◌, ◌++◌, Option, none, some, leb, ◌==◌,
  if◌then◌else◌,
}
use agentschat.Prelude.Table.{find_one}
use agentschat.Prelude.Action.{
  Result, ok, err, pure, gets, or_throw, or_refuse, throw_if, ◌>>=◌, ◌>>◌,
}
use agentschat.Text.{Text, codes, same_text}
use agentschat.Text.Split.{split}
use agentschat.Auth.Store.{
  UserEntity, AuthenticatedHuman, Refusal, M, TokenVersion, RawPayload, Decoded, Platform,
  user_by_id,
}
use agentschat.Auth.Normalize.{constant_time_matches}
use agentschat.Auth.Accounts.{to_authenticated_human}

abbrev pub token_lifetime_ms : ℕ
token_lifetime_ms = 7 * 24 * 60 * 60 * 1000

abbrev pub payload_of : ℕ → UserEntity → RawPayload
payload_of now u = record {
  is_human = true;
  sub = some u.id;
  exp = some (now + token_lifetime_ms);
  ver = TokenVersion.version u.auth_token_version;
}

unfoldable pub sign_human_token : Platform → ℕ → UserEntity → Text
sign_human_token pf now u =
    let encoded = pf.encode (payload_of now u) in
    codes "v1" ++ (b'.' ∷ (encoded ++ (b'.' ∷ pf.hmac encoded)))

-- What is read of a payload: `ver ?? 0`.
pub record HumanTokenPayload : Type 0 where
  pub sub : ℕ
  pub exp : ℕ
  pub ver : ℕ

abbrev pub version_of : TokenVersion → Option ℕ
version_of TokenVersion.no_version = some 0
version_of (TokenVersion.version n) = some n
version_of TokenVersion.no_integer = none

abbrev checked_payload :
    ℕ → Bool → Option ℕ → Option ℕ → Option ℕ → Result Refusal HumanTokenPayload
checked_payload now true (some sub) (some exp) (some ver) =
    if leb exp now
    then err Refusal.token_expired
    else ok (record { sub = sub; exp = exp; ver = ver })
checked_payload now is_human sub exp ver = err Refusal.token_expired

unfoldable pub check_payload : ℕ → Decoded → Result Refusal HumanTokenPayload
check_payload now Decoded.no_json = err Refusal.malformed_token
check_payload now Decoded.no_object = err Refusal.token_expired
check_payload now (Decoded.object p) = checked_payload now p.is_human p.sub p.exp (version_of p.ver)

unfoldable pub check_signature :
    Platform → ℕ → Text → Result Refusal Bool → Result Refusal HumanTokenPayload
check_signature pf now encoded (err x) = err x
check_signature pf now encoded (ok false) = err Refusal.invalid_signature
check_signature pf now encoded (ok true) = check_payload now (pf.decode encoded)

abbrev is_empty : Text → Bool
is_empty [] = true
is_empty (c ∷ s) = false

unfoldable pub verify_parts : Platform → ℕ → List Text → Result Refusal HumanTokenPayload
verify_parts pf now (version ∷ encoded ∷ signature ∷ []) =
    if not (same_text version (codes "v1")) || is_empty encoded || is_empty signature
    then err Refusal.malformed_token
    else check_signature pf now encoded (constant_time_matches (pf.hmac encoded) signature)
verify_parts pf now parts = err Refusal.malformed_token

unfoldable pub verify_token : Platform → ℕ → Text → Result Refusal HumanTokenPayload
unfolding split
verify_token pf now token = verify_parts pf now (split b'.' token)

-- The human, with the version and the end of the session.
pub record Session : Type 0 where
  pub human : AuthenticatedHuman
  pub version : ℕ
  pub expires_at : ℕ

unfoldable pub authenticate_human_token : Platform → ℕ → Text → M Session
authenticate_human_token pf now token = do
  payload ← or_refuse (verify_token pf now token)
  found ← gets (λ db. find_one (user_by_id payload.sub) db.users)
  u ← or_throw found Refusal.account_not_found
  throw_if (not (payload.ver == u.auth_token_version)) Refusal.token_not_current
  pure
      (record { human = to_authenticated_human u; version = payload.ver; expires_at = payload.exp })

abbrev is_other_version : Option ℕ → ℕ → Bool
is_other_version none n = false
is_other_version (some v) n = not (n == v)

unfoldable pub create_o_auth_session : ℕ → Option ℕ → M UserEntity
create_o_auth_session i expected = do
  found ← gets (λ db. find_one (user_by_id i) db.users)
  u ← or_throw found Refusal.account_unavailable
  throw_if (is_other_version expected u.auth_token_version) Refusal.sign_in_again
  pure u
