-- ===== src/Auth/Accounts.antt =====
-- auth.service.ts: signing in, the confirmation of an address, and the password reset.
use agentschat.Prelude.{
  ℕ, ◌+◌, Bool, [], true, false, not, ◌∷◌, Option, none, some, ltb, is_some, if◌then◌else◌,
}
use agentschat.Prelude.Table.{find_one}
use agentschat.Prelude.Action.{pure, gets, modify, or_throw, or_refuse, throw_if, ◌>>=◌, ◌>>◌}
use agentschat.Text.{Text, same_text}
use agentschat.Auth.Store.{
  AuthEmailCodePurpose, UserEntity, AuthDb, AuthenticatedHuman, Refusal, M, Environment, Platform,
  is_email_provider, user_by_id, save_user,
}
use agentschat.Auth.Normalize.{normalize_email, normalize_password, hash_password, verify_password}
use agentschat.Auth.Codes.{
  CodeKey, require_valid_email_code, consume_email_code, create_and_send_email_code,
  read_code_cooldown_remaining_seconds,
}

-- What an operation on e-mail codes answers, one constructor for each message.
pub data AuthOperationResponse : Type 0 where
  already_verified verification_sent verified reset_sent_if_exists password_updated :
      AuthOperationResponse

abbrev pub has_email : Text → UserEntity → Bool
has_email email u = same_text u.email email

unfoldable pub to_authenticated_human : UserEntity → AuthenticatedHuman
to_authenticated_human u = record {
  id = u.id;
  email = u.email;
  username = u.username;
  display_name = u.display_name;
  auth_provider = u.auth_provider;
  avatar_url = u.avatar_url;
  email_verified = is_some u.email_verified_at;
}

unfoldable pub require_current_user : ℕ → M UserEntity
require_current_user i = do
  found ← gets (λ db. find_one (user_by_id i) db.users)
  or_throw found Refusal.account_not_found

unfoldable pub ensure_email_password_user : UserEntity → M (Unit {0})
ensure_email_password_user u =
    throw_if (not (is_email_provider u.auth_provider)) Refusal.not_email_account

abbrev pub key_of : UserEntity → AuthEmailCodePurpose → CodeKey
key_of u purpose = record { email = u.email; purpose = purpose; user_id = u.id }

abbrev with_hash : UserEntity → Option Text → Option (UserEntity × Text)
with_hash u none = none
with_hash u (some []) = none
with_hash u (some (c ∷ hash)) = some (u, c ∷ hash)

-- A user who signs in with a password, and the hash.
unfoldable pub password_user : Option UserEntity → Option (UserEntity × Text)
password_user none = none
password_user (some u) =
    if is_email_provider u.auth_provider then with_hash u u.password_hash else none

unfoldable pub find_password_user : Text → AuthDb → Option (UserEntity × Text)
find_password_user email db = password_user (find_one (has_email email) db.users)

-- The user for whom the token is signed.
unfoldable pub login_with_email : Platform → Text → Text → M UserEntity
login_with_email pf email_input password_input = do
  email ← or_refuse (normalize_email pf email_input)
  password ← or_refuse (normalize_password password_input false)
  found ← gets (find_password_user email)
  account ← or_throw found Refusal.invalid_credentials
  matches ← or_refuse (verify_password pf password account.1)
  throw_if (not matches) Refusal.invalid_credentials
  pure account.0

unfoldable pub send_verification_code :
    Platform → Environment → ℕ → UserEntity → ℕ → Bool → M AuthOperationResponse
send_verification_code pf e now u draw delivered = do
  let key = key_of u AuthEmailCodePurpose.email_verification
  remaining ← gets (read_code_cooldown_remaining_seconds e.email_code_cooldown_seconds now key)
  throw_if (ltb 0 remaining) Refusal.cooling_down
  create_and_send_email_code pf now key e.email_verification_code_ttl_seconds draw delivered
  pure AuthOperationResponse.verification_sent

unfoldable pub request_email_verification_code :
    Platform → Environment → ℕ → ℕ → ℕ → Bool → M AuthOperationResponse
request_email_verification_code pf e now i draw delivered = do
  throw_if (not e.delivery_available) Refusal.delivery_unavailable
  u ← require_current_user i
  ensure_email_password_user u
  if is_some u.email_verified_at
      then pure AuthOperationResponse.already_verified
      else send_verification_code pf e now u draw delivered

unfoldable pub verify_email : Platform → ℕ → UserEntity → Text → M AuthOperationResponse
verify_email pf now u code = do
  c ←
      require_valid_email_code pf now (key_of u AuthEmailCodePurpose.email_verification) code
        Refusal.invalid_verification_code
  save_user (record u { email_verified_at = some now })
  consume_email_code now c
  pure AuthOperationResponse.verified

unfoldable pub confirm_email_verification_code : Platform → ℕ → ℕ → Text → M AuthOperationResponse
confirm_email_verification_code pf now i code = do
  u ← require_current_user i
  ensure_email_password_user u
  if is_some u.email_verified_at
      then pure AuthOperationResponse.already_verified
      else verify_email pf now u code

unfoldable pub send_reset_code :
    Platform → Environment → ℕ → Option (UserEntity × Text) → ℕ → Bool → M AuthOperationResponse
send_reset_code pf e now none draw delivered = pure AuthOperationResponse.reset_sent_if_exists
send_reset_code pf e now (some (u, hash)) draw delivered = do
  let key = key_of u AuthEmailCodePurpose.password_reset
  remaining ← gets (read_code_cooldown_remaining_seconds e.email_code_cooldown_seconds now key)
  if ltb 0 remaining
      then pure AuthOperationResponse.reset_sent_if_exists
      else (create_and_send_email_code pf now key e.password_reset_code_ttl_seconds draw delivered
          >> pure AuthOperationResponse.reset_sent_if_exists)

unfoldable pub request_password_reset_code :
    Platform → Environment → ℕ → Text → ℕ → Bool → M AuthOperationResponse
request_password_reset_code pf e now email_input draw delivered = do
  throw_if (not e.delivery_available) Refusal.delivery_unavailable
  email ← or_refuse (normalize_email pf email_input)
  found ← gets (find_password_user email)
  send_reset_code pf e now found draw delivered

-- `??=`
abbrev or_now : Option ℕ → ℕ → Option ℕ
or_now none now = some now
or_now (some t) now = some t

abbrev pub with_password : Platform → ℕ → Text → Text → UserEntity → UserEntity
with_password pf now salt password u = record u {
  password_hash = some (hash_password pf salt password);
  auth_token_version = u.auth_token_version + 1;
  email_verified_at = or_now u.email_verified_at now;
}

abbrev tell_listeners : ℕ → M (Unit {0})
tell_listeners i = modify λ db. record db { invalidated = i ∷ db.invalidated }

unfoldable pub reset_password :
    Platform → ℕ → Text → Text → Text → Text → UserEntity → M AuthOperationResponse
reset_password pf now email password code salt u = do
  c ←
      require_valid_email_code pf now
        (record { email = email; purpose = AuthEmailCodePurpose.password_reset; user_id = u.id })
        code Refusal.invalid_reset_code
  save_user (with_password pf now salt password u)
  consume_email_code now c
  tell_listeners u.id
  pure AuthOperationResponse.password_updated

unfoldable pub confirm_password_reset :
    Platform → ℕ → Text → Text → Text → Text → M AuthOperationResponse
confirm_password_reset pf now email_input code password_input salt = do
  email ← or_refuse (normalize_email pf email_input)
  password ← or_refuse (normalize_password password_input true)
  found ← gets (find_password_user email)
  account ← or_throw found Refusal.invalid_reset_code
  reset_password pf now email password code salt account.0
