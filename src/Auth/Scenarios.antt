-- ===== src/Auth/Scenarios.antt =====
-- The theorems on a concrete account: Ann has a reset code. The platform's functions are replaced by
-- some that have the properties that the theorems ask for.
mod Guesses
mod Accounts
mod Resets
use agentschat.Prelude.{
  ℕ, ◌+◌, ◌-◌, ◌≤◌, ◌≡◌, refl, true, false, List, [], ◌∷◌, ◌++◌, Option, none, some, arith, ◌==◌,
  if◌then◌else◌,
}
use agentschat.Prelude.Table.{find_one, find_by, exists, update, insert_row, delete}
use agentschat.Prelude.Every.{every}
use agentschat.Prelude.Distinct.{distinct}
use agentschat.Prelude.Count.{count}
use agentschat.Prelude.Action.{ok, err, is_ok}
use agentschat.Text.{Text, codes, trim, trim_start, is_space, same_text}
use agentschat.Text.Split.{lacks, utf16_length, utf8_length}
use agentschat.Auth.Store.{
  AuthProvider, AuthEmailCodePurpose, AuthEmailCodeEntity, UserEntity, AuthDb, Refusal, Environment,
  TokenVersion, RawPayload, Decoded, Platform, save_code, save_user,
}
use agentschat.Auth.Normalize.{
  normalize_email, normalize_username_candidate, normalize_username, normalize_display_name,
  normalize_password, normalize_email_code, decimal, pad, pad_start, generate_email_code,
  hash_email_code, constant_time_matches, hash_password,
}
use agentschat.Auth.Codes.{
  CodeKey, newest, find_active_email_code, consume_email_code, answer_guess, judge_code,
  require_valid_email_code, cooldown_of, read_code_cooldown_remaining_seconds, save_codes,
  consume_each, invalidate_active_email_codes, new_code, insert_code, delete_code,
  create_and_send_email_code,
}
use agentschat.Auth.Accounts.{
  AuthOperationResponse, to_authenticated_human, password_user, find_password_user,
  login_with_email, require_current_user, ensure_email_password_user, send_verification_code,
  request_email_verification_code, reset_password, confirm_password_reset,
}
use agentschat.Auth.Registration.{
  Registration, RegisterInput, insert_user, try_to_verify, register_with_email, new_user,
}
use agentschat.Auth.Tokens.{
  Session, token_lifetime_ms, sign_human_token, verify_token, authenticate_human_token,
}
use agentschat.Auth.Limit.{all_within}
use agentschat.Auth.Moves.{Held, Move, Moves, IsWithinLimit, Moves-IsWithinLimit}
use agentschat.Auth.Saved.{attempts, has_distinct_ids}
use agentschat.Auth.Guesses.{Guess, misses, wrong_guesses, wrong_guesses_at_most_five}
use agentschat.Auth.Overlap.{
  judge_each, is_live_code, overlapping_guesses_count_once, stale_guess_revives_code,
}
use agentschat.Auth.Accepted.{IsAccepted, require_valid_email_code-IsAccepted}
use agentschat.Auth.Revoked.{has_distinct_users, confirm_password_reset-revokes}
use agentschat.Auth.Signing.{IsPlatform, authenticate-sign}
use agentschat.Auth.Sent.{require_valid_email_code-sent}
use agentschat.Auth.Login.{IsHashing}
use agentschat.Auth.Registered.{login_with_email-register_with_email}

unfoldable pub shifted : Text → Text
shifted [] = []
shifted (c ∷ s) = (c + 100) ∷ shifted s

abbrev pub code_of : Option ℕ → ℕ
code_of none = 100
code_of (some n) = n + 101

abbrev pub number_of : ℕ → Option ℕ
number_of n = if n == 100 then none else some (n - 101)

abbrev pub version_code : TokenVersion → ℕ
version_code TokenVersion.no_version = 100
version_code TokenVersion.no_integer = 101
version_code (TokenVersion.version n) = n + 102

abbrev pub version_of_code : ℕ → TokenVersion
version_of_code n =
    if n == 100
    then TokenVersion.no_version
    else if n == 101
    then TokenVersion.no_integer
    else TokenVersion.version (n - 102)

abbrev pub written : RawPayload → Text
written p =
    (if p.is_human then 101 else 100) ∷ code_of p.sub ∷ code_of p.exp ∷ version_code p.ver ∷ []

abbrev pub read : Text → Decoded
read (a ∷ b ∷ c ∷ d ∷ []) =
    Decoded.object (record {
      is_human = a == 101;
      sub = number_of b;
      exp = number_of c;
      ver = version_of_code d;
    })
read s = Decoded.no_json

abbrev pub platform : Platform
platform = record {
  to_lower_case = λ s. s;
  hmac = λ s. b'h' ∷ shifted s;
  scrypt = λ password salt. b'k' ∷ shifted password;
  encode = written;
  decode = read;
}

lacks-shifted : (sep : ℕ) (s : Text) → sep ≤ 99 → lacks sep (shifted s) ≡ true
unfolding lacks shifted
lacks-shifted sep [] h = refl
lacks-shifted sep (c ∷ s) h = ground (arith, lacks-shifted sep s)

code_no_dot : (o : Option ℕ) → (code_of o == b'.') ≡ false
code_no_dot none = refl
code_no_dot (some n) = ground arith

version_no_dot : (v : TokenVersion) → (version_code v == b'.') ≡ false
version_no_dot TokenVersion.no_version = refl
version_no_dot TokenVersion.no_integer = refl
version_no_dot (TokenVersion.version n) = ground arith

number_of-code_of : (o : Option ℕ) → number_of (code_of o) ≡ o
number_of-code_of none = refl
number_of-code_of (some n) = ground arith

version_of_code-version_code : (v : TokenVersion) → version_of_code (version_code v) ≡ v
version_of_code-version_code TokenVersion.no_version = refl
version_of_code-version_code TokenVersion.no_integer = refl
version_of_code-version_code (TokenVersion.version n) = ground arith

pub platform-IsPlatform : IsPlatform platform
unfolding lacks
platform-IsPlatform = record {
  encode_lacks = λ p. ground (arith, code_no_dot p.sub, code_no_dot p.exp, version_no_dot p.ver);
  encode_non_empty = λ p e. absurd (ground arith);
  hmac_lacks = λ s. ground (arith, lacks-shifted b'.' s (omega arith));
  hmac_non_empty = λ s e. absurd (ground arith);
  decode-encode = λ p.
      ground (
        arith,
        number_of-code_of p.sub,
        number_of-code_of p.exp,
        version_of_code-version_code p.ver,
      );
}

pub platform-IsHashing : IsHashing platform
unfolding lacks
platform-IsHashing = record {
  scrypt_lacks = λ password salt. ground (arith, lacks-shifted b':' password (omega arith));
  scrypt_non_empty = λ password salt e. absurd (ground arith);
}

abbrev pub ann : UserEntity
ann = record {
  id = 1;
  email = codes "ann@x.y";
  username = codes "ann";
  display_name = codes "Ann";
  password_hash = some (codes "old");
  auth_provider = AuthProvider.email;
  avatar_url = none;
  email_verified_at = none;
  auth_token_version = 3;
}

abbrev pub key : CodeKey
key = record { email = codes "ann@x.y"; purpose = AuthEmailCodePurpose.password_reset; user_id = 1 }

-- The code 123456, sent at 1000, for ten minutes.
abbrev pub code : AuthEmailCodeEntity
code = new_code platform 1000 key 600 123456 5

abbrev pub one_code : AuthDb
one_code = record { users = ann ∷ []; email_codes = code ∷ []; invalidated = []; next_id = 6 }

abbrev pub right_code : Text
right_code = codes " 123 456"

abbrev pub ann_address : Text
ann_address = codes " ann@x.y"

abbrev pub new_password : Text
new_password = codes "longenough"

abbrev pub after_reset : AuthDb
after_reset =
    (confirm_password_reset platform 2000 ann_address right_code new_password (codes "ff")
      one_code).1

pub reset_succeeds :
    (confirm_password_reset platform 2000 ann_address right_code new_password
      (codes "ff")
      one_code).0
    ≡ ok AuthOperationResponse.password_updated
unfolding confirm_password_reset normalize_email normalize_password find_password_user password_user
    reset_password require_valid_email_code normalize_email_code trim trim_start is_space find_by
    every find_active_email_code newest judge_code answer_guess constant_time_matches
    hash_email_code shifted same_text utf16_length utf8_length generate_email_code pad_start pad
    decimal find_one exists save_user consume_email_code save_code update
reset_succeeds = refl

pub reset_tells : after_reset.invalidated ≡ 1 ∷ []
unfolding confirm_password_reset normalize_email normalize_password find_password_user password_user
    reset_password require_valid_email_code normalize_email_code trim trim_start is_space find_by
    every find_active_email_code newest judge_code answer_guess constant_time_matches
    hash_email_code shifted same_text utf16_length utf8_length generate_email_code pad_start pad
    decimal find_one exists save_user consume_email_code save_code update
reset_tells = refl

abbrev pub session : Session
session = record {
  human = record {
    id = 1;
    email = codes "ann@x.y";
    username = codes "ann";
    display_name = codes "Ann";
    auth_provider = AuthProvider.email;
    avatar_url = none;
    email_verified = false;
  };
  version = 3;
  expires_at = 1000 + token_lifetime_ms;
}

pub signed_in :
    (authenticate_human_token platform 2500 (sign_human_token platform 1000 ann) one_code).0
    ≡ ok session
unfolding find_one to_authenticated_human
signed_in = authenticate-sign platform 1000 2500 ann one_code platform-IsPlatform refl (omega arith)
