-- ===== src/Auth/Registration.antt =====
-- auth.service.ts: registerWithEmail and readUsernameAvailability.
use agentschat.Prelude.{ℕ, suc, Bool, true, false, not, Option, none, some, if◌then◌else◌}
use agentschat.Prelude.Table.{exists, insert_row}
use agentschat.Prelude.Action.{Result, ok, err, gets, modify, or_refuse, throw_if, ◌>>=◌, ◌>>◌}
use agentschat.Text.{Text, trim, non_empty, same_text}
use agentschat.Auth.Store.{AuthProvider, UserEntity, AuthDb, Refusal, M, Environment, Platform}
use agentschat.Auth.Normalize.{
  normalize_email, normalize_username, normalize_username_candidate, normalize_display_name,
  normalize_password, hash_password,
}
use agentschat.Auth.Accounts.{AuthOperationResponse, has_email, request_email_verification_code}

abbrev pub has_username : Text → UserEntity → Bool
has_username username u = same_text u.username username

-- What registration and the look-up of a name say.
pub record Registration : Type 0 where
  pub user : UserEntity
  pub verification_sent : Bool
  pub retry_after_seconds : ℕ

-- `input`
pub record RegisterInput : Type 0 where
  pub email : Text
  pub username : Text
  pub display_name : Text
  pub password : Text
  pub avatar_url : Option Text

abbrev trimmed : Option Text → Option Text
trimmed none = none
trimmed (some s) = non_empty (trim s)

abbrev pub new_user : Platform → Text → Text → Text → Text → Text → Option Text → ℕ → UserEntity
new_user pf email username display_name password salt avatar_url i = record {
  id = i;
  email = email;
  username = username;
  display_name = display_name;
  password_hash = some (hash_password pf salt password);
  auth_provider = AuthProvider.email;
  avatar_url = trimmed avatar_url;
  email_verified_at = none;
  auth_token_version = 0;
}

unfoldable pub insert_user : UserEntity → M (Unit {0})
insert_user u = modify λ db. record db { users = insert_row db.users u; next_id = suc db.next_id }

-- A mail that cannot be sent does not undo the registration.
unfoldable pub try_to_verify : Platform → Environment → ℕ → UserEntity → ℕ → Bool → M Registration
try_to_verify pf e now u draw delivered db =
    answer_of (request_email_verification_code pf e now u.id draw delivered db)
  where
    answer_of : Result Refusal AuthOperationResponse × AuthDb → Result Refusal Registration × AuthDb
    answer_of (ok r, db') = (
      ok (record {
        user = u;
        verification_sent = true;
        retry_after_seconds = e.email_code_cooldown_seconds;
      }),
      db',
    )
    answer_of (err x, db') =
        (ok (record { user = u; verification_sent = false; retry_after_seconds = 0 }), db')

unfoldable pub register_with_email :
    Platform → Environment → ℕ → RegisterInput → Text → ℕ → Bool → M Registration
register_with_email pf e now input salt draw delivered = do
  email ← or_refuse (normalize_email pf input.email)
  username ← or_refuse (normalize_username pf input.username)
  display_name ← or_refuse (normalize_display_name input.display_name)
  password ← or_refuse (normalize_password input.password true)
  email_taken ← gets (λ db. exists (has_email email) db.users)
  username_taken ← gets (λ db. exists (has_username username) db.users)
  throw_if email_taken Refusal.email_taken
  throw_if username_taken Refusal.username_taken
  i ← gets (λ db. db.next_id)
  let u = new_user pf email username display_name password salt input.avatar_url i
  insert_user u
  try_to_verify pf e now u draw delivered

pub record Availability : Type 0 where
  pub normalized_username : Text
  pub available : Bool
  pub refusal : Option Refusal

unfoldable pub availability_of : Platform → Text → Result Refusal Text → AuthDb → Availability
availability_of pf input (ok username) db =
    let taken = exists (has_username username) db.users in
    record {
      normalized_username = username;
      available = not taken;
      refusal = if taken then some Refusal.username_taken else none;
    }
availability_of pf input (err x) db = record {
  normalized_username = normalize_username_candidate pf input;
  available = false;
  refusal = some x;
}

unfoldable pub read_username_availability : Platform → Text → M Availability
read_username_availability pf input = gets (availability_of pf input (normalize_username pf input))
