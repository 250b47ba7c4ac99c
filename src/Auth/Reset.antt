-- ===== src/Auth/Reset.antt =====
-- What a password reset that succeeds has done: the code was accepted and is consumed, the account has
-- the new password and the next token version.
use agentschat.Prelude.{
  ℕ, ◌≡◌, refl, Bool, true, inl, inr, List, [], ◌∷◌, Option, none, some, arith, Option-cases,
}
use agentschat.Prelude.Table.{find_one, update}
use agentschat.Prelude.Action.{ok, Result-cases}
use agentschat.Text.{Text}
use agentschat.Auth.Store.{
  AuthEmailCodePurpose, AuthEmailCodeEntity, UserEntity, AuthDb, Refusal, Platform, user_by_id,
  save_user, save_code,
}
use agentschat.Auth.Normalize.{normalize_email, normalize_password}
use agentschat.Auth.Codes.{CodeKey, require_valid_email_code, consume_email_code}
use agentschat.Auth.Accepted.{require_valid_email_code-same}
use agentschat.Auth.Accounts.{
  AuthOperationResponse, has_email, password_user, find_password_user, with_password,
  reset_password, confirm_password_reset,
}

abbrev pub reset_key : Text → UserEntity → CodeKey
reset_key email u = record {
  email = email;
  purpose = AuthEmailCodePurpose.password_reset;
  user_id = u.id;
}

-- The account, the address and the code of a reset, and the store after it.
pub record IsReset (pf : Platform) (now : ℕ) (email_input code salt : Text) (db db' : AuthDb)
    (u : UserEntity) (hash email password : Text) (c : AuthEmailCodeEntity) : Type 0 where
  pub address : normalize_email pf email_input ≡ ok email
  pub account : find_password_user email db ≡ some (u, hash)
  pub accepted :
      (require_valid_email_code pf now (reset_key email u) code Refusal.invalid_reset_code db).0
      ≡ ok c
  pub users : db'.users ≡ (save_user (with_password pf now salt password u) db).1.users
  pub email_codes : db'.email_codes ≡ (consume_email_code now c db).1.email_codes
  pub invalidated : db'.invalidated ≡ u.id ∷ db.invalidated

password_user-some :
    (o : Option UserEntity) (u : UserEntity) (hash : Text)
    → password_user o ≡ some (u, hash)
    → o ≡ some u
unfolding password_user
password_user-some none u hash h = absurd (ground arith)
password_user-some (some v) u hash h = elim (Option-cases v.password_hash) [
  | inl n ↦ absurd (ground arith)
  | inr ([], e) ↦ absurd (ground arith)
  | inr (c ∷ rest, e) ↦ ground arith
]

pub find_password_user-found :
    (email : Text) (db : AuthDb) (u : UserEntity) (hash : Text)
    → find_password_user email db ≡ some (u, hash)
    → find_one (has_email email) db.users ≡ some u
unfolding find_password_user
find_password_user-found email db u hash h = password_user-some _ u hash h

-- The row that a query finds is the one found after it was replaced by a row that fits.
pub find_one-replaced_user :
    (p : UserEntity → Bool) (u v : UserEntity) (us : List UserEntity)
    → find_one p us ≡ some u
    → p v ≡ true
    → v.id ≡ u.id
    → find_one p (update (user_by_id v.id) (λ r. v) us) ≡ some v
unfolding find_one update
find_one-replaced_user p u v [] e h i = absurd (ground arith)
find_one-replaced_user p u v (d ∷ ds) e h i = ground (arith, find_one-replaced_user p u v ds)

consume_email_code-users :
    (now : ℕ) (c : AuthEmailCodeEntity) (db : AuthDb)
    → ((consume_email_code now c db).0 ≡ ok tt)
      × ((consume_email_code now c db).1.users ≡ db.users)
      × ((consume_email_code now c db).1.invalidated ≡ db.invalidated)
unfolding consume_email_code save_code
consume_email_code-users now c db = elim (Option-cases c.consumed_at) [
  | inl n ↦ ground arith
  | inr (t, e) ↦ ground arith
]

-- Consuming a code looks at the codes only.
consume_email_code-codes :
    (now : ℕ) (c : AuthEmailCodeEntity) (db db' : AuthDb)
    → db.email_codes ≡ db'.email_codes
    → (consume_email_code now c db).1.email_codes ≡ (consume_email_code now c db').1.email_codes
unfolding consume_email_code save_code
consume_email_code-codes now c db db' h = elim (Option-cases c.consumed_at) [
  | inl n ↦ ground arith
  | inr (t, e) ↦ ground arith
]

module _ (pf : Platform) (now : ℕ) (email_input code salt : Text) (db : AuthDb)
    (r : AuthOperationResponse) where
  reset_password-IsReset :
      (u : UserEntity) (hash email password : Text)
      → normalize_email pf email_input ≡ ok email
      → find_password_user email db ≡ some (u, hash)
      → (reset_password pf now email password code salt u db).0 ≡ ok r
      → (c : AuthEmailCodeEntity) × IsReset pf now email_input code salt db
          (reset_password pf now email password code salt u db).1
          u
          hash
          email
          password
          c
  unfolding reset_password save_user
  reset_password-IsReset u hash email password a f h =
      elim (Result-cases
        (require_valid_email_code pf now (reset_key email u) code Refusal.invalid_reset_code
          db).0) [
            | inr (x, e) ↦ absurd (ground arith)
            | inl (c, e) ↦
                let same =
                  require_valid_email_code-same pf now (reset_key email u) code
                    Refusal.invalid_reset_code db c e in
                let saved : AuthDb = (save_user (with_password pf now salt password u) db).1 in
                let used = consume_email_code-users now c saved in
                let codes = consume_email_code-codes now c saved db refl in
                (
                  c,
                  record {
                    address = a;
                    account = f;
                    accepted = e;
                    users = ground (arith, same, used);
                    email_codes = ground (arith, same, used, codes);
                    invalidated = ground (arith, same, used);
                  },
                )
          ]

  pub confirm_password_reset-IsReset :
      (password_input : Text)
      → (confirm_password_reset pf now email_input code password_input salt db).0 ≡ ok r
      → (u : UserEntity) × (hash : Text) × (email : Text) × (password : Text)
        × (c : AuthEmailCodeEntity) × IsReset pf now email_input code salt db
            (confirm_password_reset pf now email_input code password_input salt db).1
            u
            hash
            email
            password
            c
  unfolding confirm_password_reset
  confirm_password_reset-IsReset password_input h =
      elim (Result-cases (normalize_email pf email_input)) [
        | inr (x, e) ↦ absurd (ground arith)
        | inl (email, a) ↦ elim (Result-cases (normalize_password password_input true)) [
          | inr (x, e) ↦ absurd (ground arith)
          | inl (password, p) ↦ elim (Option-cases (find_password_user email db)) [
            | inl n ↦ absurd (ground arith)
            | inr ((u, hash), f) ↦
                let done = reset_password-IsReset u hash email password a f (ground arith) in
                (u, hash, email, password, done.0, rw (a, p, f) done.1)
          ]
        ]
      ]
