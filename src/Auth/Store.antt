-- ===== src/Auth/Store.antt =====
-- The rows that the authentication service reads and writes, its settings, and its store. Times are
-- in milliseconds.
use agentschat.Prelude.{ℕ, Bool, true, false, List, Option, ◌==◌, if◌then◌else◌}
use agentschat.Prelude.Table.{exists, update, insert_row}
use agentschat.Prelude.Action.{Action, modify}
use agentschat.Text.{Text}

pub data AuthProvider : Type 0 where
  email google git_hub : AuthProvider

abbrev pub is_email_provider : AuthProvider → Bool
is_email_provider AuthProvider.email = true
is_email_provider _ = false

pub data AuthEmailCodePurpose : Type 0 where
  email_verification password_reset : AuthEmailCodePurpose

abbrev pub same_purpose : AuthEmailCodePurpose → AuthEmailCodePurpose → Bool
same_purpose AuthEmailCodePurpose.email_verification AuthEmailCodePurpose.email_verification = true
same_purpose AuthEmailCodePurpose.password_reset AuthEmailCodePurpose.password_reset = true
same_purpose _ _ = false

pub record AuthEmailCodeEntity : Type 0 where
  pub id : ℕ
  pub created_at : ℕ
  pub user_id : Option ℕ
  pub email : Text
  pub purpose : AuthEmailCodePurpose
  pub code_hash : Text
  pub expires_at : ℕ
  pub consumed_at : Option ℕ
  pub attempt_count : ℕ

pub record UserEntity : Type 0 where
  pub id : ℕ
  pub email : Text
  pub username : Text
  pub display_name : Text
  pub password_hash : Option Text
  pub auth_provider : AuthProvider
  pub avatar_url : Option Text
  pub email_verified_at : Option ℕ
  pub auth_token_version : ℕ

-- `invalidated` are the users whose id was passed to the listeners of `onHumanTokensInvalidated`.
pub record AuthDb : Type 0 where
  pub users : List UserEntity
  pub email_codes : List AuthEmailCodeEntity
  pub invalidated : List ℕ
  pub next_id : ℕ

-- `AuthenticatedHuman`
pub record AuthenticatedHuman : Type 0 where
  pub id : ℕ
  pub email : Text
  pub username : Text
  pub display_name : Text
  pub auth_provider : AuthProvider
  pub avatar_url : Option Text
  pub email_verified : Bool

-- The exceptions, one for each message.
pub data Refusal : Type 0 where
  email_required display_name_required username_required username_length : Refusal
  username_characters password_required password_too_short code_format : Refusal
  email_taken username_taken invalid_credentials account_not_found : Refusal
  not_email_account cooling_down delivery_unavailable delivery_failed : Refusal
  invalid_verification_code invalid_reset_code : Refusal
  malformed_token invalid_signature token_expired token_not_current : Refusal
  account_unavailable sign_in_again external_login_disabled different_byte_length : Refusal

abbrev pub M : Type 0 → Type 0
M = Action AuthDb Refusal

pub record Environment : Type 0 where
  pub email_verification_code_ttl_seconds : ℕ
  pub password_reset_code_ttl_seconds : ℕ
  pub email_code_cooldown_seconds : ℕ
  pub delivery_available : Bool

-- What `JSON.parse` gives of the decoded part of a token, as far as the service reads it: a field of
-- another type than the one expected is `none`.
pub data TokenVersion : Type 0 where
  no_version : TokenVersion
  version : ℕ → TokenVersion
  no_integer : TokenVersion

pub record RawPayload : Type 0 where
  pub is_human : Bool
  pub sub : Option ℕ
  pub exp : Option ℕ
  pub ver : TokenVersion

pub data Decoded : Type 0 where
  no_json no_object : Decoded
  object : RawPayload → Decoded

-- The functions of the platform: `toLowerCase`, the HMACs in hexadecimal, `scrypt` in hexadecimal of
-- a password and a salt, and the encoding of a payload as JSON in base64url.
pub record Platform : Type 0 where
  pub to_lower_case : Text → Text
  pub hmac : Text → Text
  pub scrypt : Text → Text → Text
  pub encode : RawPayload → Text
  pub decode : Text → Decoded

abbrev pub user_by_id : ℕ → UserEntity → Bool
user_by_id i u = u.id == i

abbrev pub code_by_id : ℕ → AuthEmailCodeEntity → Bool
code_by_id i c = c.id == i

-- `save` of a loaded copy writes every column of it, and inserts it if its row is gone.
unfoldable pub save_code : AuthEmailCodeEntity → M (Unit {0})
save_code c = modify λ db. record db {
  email_codes =
      if exists (code_by_id c.id) db.email_codes
      then update (code_by_id c.id) (λ r. c) db.email_codes
      else insert_row db.email_codes c;
}

unfoldable pub save_user : UserEntity → M (Unit {0})
save_user u = modify λ db. record db {
  users =
      if exists (user_by_id u.id) db.users
      then update (user_by_id u.id) (λ r. u) db.users
      else insert_row db.users u;
}
