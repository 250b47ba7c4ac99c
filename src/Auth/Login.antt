-- ===== src/Auth/Login.antt =====
-- Signing in with the password that was registered.
use agentschat.Prelude.{
  ℕ, ◌≡◌, ◌≢◌, refl, ap, ◌∙◌, Bool, true, inl, inr, List, [], ◌∷◌, arith, Bool-cases,
}
use agentschat.Prelude.Keeps.{Preorder, Keeps, unchanged, keeping}
use agentschat.Prelude.Action.{ok, Result-cases}
use agentschat.Text.{Text}
use agentschat.Text.Split.{lacks, split-lacks, split-join}
use agentschat.Auth.Store.{
  AuthEmailCodeEntity, UserEntity, AuthDb, M, Environment, Platform, save_code, is_email_provider,
}
use agentschat.Auth.Normalize.{hash_password, matches_parts, verify_password, constant_time_matches}
use agentschat.Auth.Codes.{
  CodeKey, save_codes, invalidate_active_email_codes, insert_code, delete_code,
  create_and_send_email_code,
}
use agentschat.Auth.Accounts.{
  send_verification_code, request_email_verification_code, require_current_user,
  ensure_email_password_user,
}
use agentschat.Auth.Registration.{Registration, try_to_verify}
use agentschat.Auth.Signing.{matches_refl}

-- Hexadecimal texts are not empty and have no colon.
pub record IsHashing (pf : Platform) : Type 0 where
  pub scrypt_lacks : (password salt : Text) → lacks b':' (pf.scrypt password salt) ≡ true
  pub scrypt_non_empty : (password salt : Text) → pf.scrypt password salt ≢ []

two_parts :
    (pf : Platform) (password salt expected : Text)
    → salt ≢ []
    → expected ≢ []
    → matches_parts pf password (salt ∷ expected ∷ [])
      ≡ constant_time_matches (pf.scrypt password salt) expected
two_parts pf password [] expected h i = absurd (h refl)
two_parts pf password (c ∷ salt) [] h i = absurd (i refl)
two_parts pf password (c ∷ salt) (d ∷ expected) h i = refl

-- The password that was hashed is the one that is verified.
pub verify_password-hash_password :
    (pf : Platform) (salt password : Text)
    → IsHashing pf
    → lacks b':' salt ≡ true
    → salt ≢ []
    → verify_password pf password (hash_password pf salt password) ≡ ok true
unfolding verify_password hash_password
verify_password-hash_password pf salt password hashing clean full =
    let derived : Text = pf.scrypt password salt in
    let parts = split-join b':' salt derived clean in
    let rest = split-lacks b':' derived (hashing.scrypt_lacks password salt) in
    ap (matches_parts pf password) (parts ∙ ap (λ ts. salt ∷ ts) rest)
    ∙ (two_parts pf password salt derived full (hashing.scrypt_non_empty password salt)
        ∙ matches_refl derived)

same_users : Preorder AuthDb
same_users = unchanged (λ db. db.users)

quiet : {A : Type 0} (m : M A) → ((db : AuthDb) → (m db).1.users ≡ db.users) → Keeps same_users m
unfolding same_users
quiet m h = record { at = h }

save_codes-users :
    (cs : List AuthEmailCodeEntity) (db : AuthDb) → (save_codes cs db).1.users ≡ db.users
unfolding save_codes save_code
save_codes-users [] db = refl
save_codes-users (c ∷ cs) db = save_codes-users cs (save_code c db).1

invalidate-users :
    (now : ℕ) (key : CodeKey) → Keeps same_users (invalidate_active_email_codes now key)
unfolding invalidate_active_email_codes
invalidate-users now key = quiet _ (λ db. save_codes-users _ db)

insert-users : (c : AuthEmailCodeEntity) → Keeps same_users (insert_code c)
unfolding insert_code
insert-users c = quiet _ (λ db. refl)

delete-users : (i : ℕ) → Keeps same_users (delete_code i)
unfolding delete_code
delete-users i = quiet _ (λ db. refl)

create_and_send-users :
    (pf : Platform) (now : ℕ) (key : CodeKey) (ttl draw : ℕ) (delivered : Bool)
    → Keeps same_users (create_and_send_email_code pf now key ttl draw delivered)
unfolding create_and_send_email_code
create_and_send-users pf now key ttl draw delivered =
    search (keeping, invalidate-users, insert-users, delete-users) depth 14

send_verification-users :
    (pf : Platform) (e : Environment) (now : ℕ) (u : UserEntity) (draw : ℕ) (delivered : Bool)
    → Keeps same_users (send_verification_code pf e now u draw delivered)
unfolding send_verification_code
send_verification-users pf e now u draw delivered = search (keeping, create_and_send-users) depth 14

require_current-users : (i : ℕ) → Keeps same_users (require_current_user i)
unfolding require_current_user
require_current-users i = search (keeping) depth 14

ensure-users : (u : UserEntity) → Keeps same_users (ensure_email_password_user u)
unfolding ensure_email_password_user same_users
ensure-users u = record {
  at = λ db. elim (Bool-cases (is_email_provider u.auth_provider)) [
    | inl e ↦ ground arith
    | inr e ↦ ground arith
  ];
}

request_verification-users :
    (pf : Platform) (e : Environment) (now i draw : ℕ) (delivered : Bool)
    → Keeps same_users (request_email_verification_code pf e now i draw delivered)
unfolding request_email_verification_code
request_verification-users pf e now i draw delivered =
    search (keeping, require_current-users, ensure-users, send_verification-users) depth 14

-- A registration keeps the user whatever becomes of the mail.
pub try_to_verify-users :
    (pf : Platform) (e : Environment) (now : ℕ) (u : UserEntity) (draw : ℕ) (delivered : Bool)
    (db : AuthDb) (r : Registration)
    → (try_to_verify pf e now u draw delivered db).0 ≡ ok r
    → (r.user ≡ u) × ((try_to_verify pf e now u draw delivered db).1.users ≡ db.users)
unfolding try_to_verify same_users
try_to_verify-users pf e now u draw delivered db r h =
    let kept = (request_verification-users pf e now u.id draw delivered).at db in
    elim (Result-cases (request_email_verification_code pf e now u.id draw delivered db).0) [
      | inl (a, f) ↦ ground (arith, kept)
      | inr (x, f) ↦ ground (arith, kept)
    ]
