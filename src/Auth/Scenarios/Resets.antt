-- ===== src/Auth/Scenarios/Resets.antt =====
-- Ann asks for a reset code and uses it.
use agentschat.Prelude.{◌≡◌, refl, true, false, arith}
use agentschat.Prelude.Table.{find_one, find_by, exists, update, insert_row}
use agentschat.Prelude.Every.{every}
use agentschat.Prelude.Distinct.{distinct}
use agentschat.Prelude.Action.{is_ok}
use agentschat.Text.{codes, trim, trim_start, is_space, same_text}
use agentschat.Text.Split.{utf16_length, utf8_length}
use agentschat.Auth.Store.{AuthDb, save_code, save_user}
use agentschat.Auth.Normalize.{
  normalize_email, normalize_password, normalize_email_code, decimal, pad, pad_start,
  generate_email_code, hash_email_code, constant_time_matches,
}
use agentschat.Auth.Codes.{
  newest, find_active_email_code, consume_email_code, answer_guess, judge_code,
  require_valid_email_code, save_codes, consume_each, invalidate_active_email_codes, insert_code,
  create_and_send_email_code,
}
use agentschat.Auth.Accounts.{
  AuthOperationResponse, password_user, find_password_user, reset_password, confirm_password_reset,
}
use agentschat.Auth.Saved.{has_distinct_ids}
use agentschat.Auth.Used.{confirm_password_reset_once}
use agentschat.Auth.Scenarios.{
  platform, shifted, ann, key, one_code, ann_address, right_code, new_password,
}

-- A second code takes the place of the first.
abbrev mailed : AuthDb
mailed = (create_and_send_email_code platform 1500 key 600 123456 true one_code).1

confirm_password_reset_once_example :
    is_ok
      (confirm_password_reset platform 2600 ann_address right_code new_password
        (codes "ee")
        (confirm_password_reset platform 2000 ann_address right_code new_password
          (codes "ff")
          mailed).1).0
    ≡ false
unfolding confirm_password_reset normalize_email normalize_password find_password_user password_user
    reset_password require_valid_email_code normalize_email_code trim trim_start is_space find_by
    every find_active_email_code newest judge_code answer_guess constant_time_matches
    hash_email_code shifted same_text utf16_length utf8_length generate_email_code pad_start pad
    decimal find_one exists save_user consume_email_code save_code update insert_row
    create_and_send_email_code invalidate_active_email_codes save_codes consume_each insert_code
    has_distinct_ids distinct
confirm_password_reset_once_example =
    confirm_password_reset_once platform 1500 2000 2600 600 123456 ann ann_address (codes "old")
      right_code right_code new_password new_password (codes "ff") (codes "ee") one_code
      AuthOperationResponse.password_updated refl refl refl refl (omega arith) (omega arith)
