-- ===== src/Auth/Scenarios/Accounts.antt =====
-- Ann's tokens and reset, and Bob's registration.
use agentschat.Prelude.{◌≡◌, refl, true, false, none, arith}
use agentschat.Prelude.Table.{find_one, find_by, exists, insert_row, delete}
use agentschat.Prelude.Every.{every}
use agentschat.Prelude.Distinct.{distinct}
use agentschat.Prelude.Action.{ok, err}
use agentschat.Text.{codes, trim, trim_start, is_space, same_text}
use agentschat.Text.Split.{lacks, utf16_length}
use agentschat.Auth.Store.{Refusal, Environment}
use agentschat.Auth.Normalize.{
  normalize_email, normalize_username_candidate, normalize_username, normalize_display_name,
  normalize_password, hash_password,
}
use agentschat.Auth.Codes.{
  newest, find_active_email_code, cooldown_of, read_code_cooldown_remaining_seconds, save_codes,
  consume_each, invalidate_active_email_codes, insert_code, delete_code, create_and_send_email_code,
}
use agentschat.Auth.Accounts.{
  AuthOperationResponse, to_authenticated_human, login_with_email, require_current_user,
  ensure_email_password_user, send_verification_code, request_email_verification_code,
}
use agentschat.Auth.Registration.{
  Registration, RegisterInput, insert_user, try_to_verify, register_with_email, new_user,
}
use agentschat.Auth.Tokens.{sign_human_token, authenticate_human_token}
use agentschat.Auth.Revoked.{has_distinct_users, confirm_password_reset-revokes}
use agentschat.Auth.Signing.{authenticate-sign}
use agentschat.Auth.Registered.{login_with_email-register_with_email}
use agentschat.Auth.Scenarios.{
  platform, platform-IsPlatform, platform-IsHashing, shifted, ann, one_code, ann_address,
  right_code, new_password, after_reset, reset_succeeds, reset_tells, session, signed_in,
}

authenticate-sign_example :
    (authenticate_human_token platform 2500 (sign_human_token platform 1000 ann) one_code).0
    ≡ ok session
unfolding find_one to_authenticated_human
authenticate-sign_example =
    authenticate-sign platform 1000 2500 ann one_code platform-IsPlatform refl (omega arith)

confirm_password_reset-revokes_example :
    (authenticate_human_token platform 2500 (sign_human_token platform 1000 ann) after_reset).0
    ≡ err Refusal.token_not_current
unfolding has_distinct_users distinct exists
confirm_password_reset-revokes_example =
    confirm_password_reset-revokes platform 2000 ann_address right_code new_password (codes "ff")
      one_code AuthOperationResponse.password_updated 1 2500 (sign_human_token platform 1000 ann)
      session refl reset_succeeds reset_tells signed_in

abbrev bob : RegisterInput
bob = record {
  email = codes "bob@x.y";
  username = codes "@bob";
  display_name = codes "Bob";
  password = codes "longenough";
  avatar_url = none;
}

abbrev environment : Environment
environment = record {
  email_verification_code_ttl_seconds = 600;
  password_reset_code_ttl_seconds = 600;
  email_code_cooldown_seconds = 60;
  delivery_available = true;
}

abbrev bob_registered : Registration
bob_registered = record {
  user =
      new_user platform (codes "bob@x.y") (codes "bob") (codes "Bob") (codes "longenough")
        (codes "ff") none 6;
  verification_sent = false;
  retry_after_seconds = 0;
}

-- Bob registers, and the mail cannot be sent.
registration_succeeds :
    (register_with_email platform environment 2000 bob (codes "ff") 77 false one_code).0
    ≡ ok bob_registered
unfolding register_with_email normalize_email normalize_username normalize_username_candidate
    normalize_display_name normalize_password trim trim_start is_space every utf16_length exists
    same_text insert_user insert_row try_to_verify request_email_verification_code
    require_current_user ensure_email_password_user send_verification_code find_one
    read_code_cooldown_remaining_seconds cooldown_of find_active_email_code newest find_by
    create_and_send_email_code invalidate_active_email_codes save_codes consume_each insert_code
    delete_code delete hash_password shifted
registration_succeeds = refl

login_with_email-register_with_email_example :
    (login_with_email platform
      (codes "bob@x.y")
      (codes "longenough")
      (register_with_email platform environment 2000 bob (codes "ff") 77 false one_code).1).0
    ≡ ok bob_registered.user
unfolding lacks
login_with_email-register_with_email_example =
    login_with_email-register_with_email platform environment 2000 bob (codes "ff") 77 false
      one_code bob_registered platform-IsHashing refl (λ e. absurd (ground arith))
      registration_succeeds
