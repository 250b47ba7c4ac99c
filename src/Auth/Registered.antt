-- ===== src/Auth/Registered.antt =====
-- A registered account can be signed in to.
use agentschat.Prelude.{
  ℕ, suc, ◌≡◌, ◌≢◌, refl, Bool, true, false, inl, inr, List, [], ◌∷◌, some, arith, Option-cases,
}
use agentschat.Prelude.Table.{find_one, exists, insert_row}
use agentschat.Prelude.Rows.{find_one-insert_row, find_one-exists}
use agentschat.Prelude.Action.{ok, Result-cases}
use agentschat.Text.{Text, trim, same_text_refl}
use agentschat.Text.Split.{lacks}
use agentschat.Auth.Store.{UserEntity, AuthDb, Environment, Platform, is_email_provider}
use agentschat.Auth.Normalize.{
  normalize_email, normalize_username, normalize_display_name, normalize_password, long_enough,
  hash_password,
}
use agentschat.Auth.Accounts.{has_email, password_user, find_password_user, login_with_email}
use agentschat.Auth.Registration.{
  Registration, RegisterInput, new_user, insert_user, register_with_email,
}
use agentschat.Auth.Login.{IsHashing, verify_password-hash_password, try_to_verify-users}

-- A password that is long enough is one that can be tried.
normalize_password-tried :
    (input password : Text)
    → normalize_password input true ≡ ok password
    → normalize_password input false ≡ ok password
unfolding normalize_password
normalize_password-tried input password h = tried (trim input) h
  where
    tried : (s : Text) → long_enough s true ≡ ok password → long_enough s false ≡ ok password
    tried [] e = e
    tried (c ∷ s) e = ground (arith, e)

password_user-hashed :
    (u : UserEntity) (hash : Text)
    → is_email_provider u.auth_provider ≡ true
    → u.password_hash ≡ some hash
    → hash ≢ []
    → password_user (some u) ≡ some (u, hash)
unfolding password_user
password_user-hashed u [] h e full = absurd (full refl)
password_user-hashed u (c ∷ hash) h e full = ground arith

hash_password-non_empty :
    (pf : Platform) (salt password : Text) → hash_password pf salt password ≢ []
unfolding hash_password
hash_password-non_empty pf [] password e = absurd (ground arith)
hash_password-non_empty pf (c ∷ salt) password e = absurd (ground arith)

find_one-added_user :
    (p : UserEntity → Bool) (us : List UserEntity) (u : UserEntity)
    → exists p us ≡ false
    → p u ≡ true
    → find_one p (insert_row us u) ≡ some u
find_one-added_user p us u free fits = elim (Option-cases (find_one p us)) [
  | inl n ↦ ground (arith, find_one-insert_row p us u)
  | inr (v, e) ↦ absurd (ground (arith, find_one-exists p us))
]

-- What a registration that succeeds has done.
record IsRegistered (pf : Platform) (input : RegisterInput) (salt : Text) (db db' : AuthDb)
    (r : Registration) (email password : Text) : Type 0 where
  pub address : normalize_email pf input.email ≡ ok email
  pub secret : normalize_password input.password true ≡ ok password
  pub free : exists (has_email email) db.users ≡ false
  pub has_address : r.user.email ≡ email
  pub by_email : is_email_provider r.user.auth_provider ≡ true
  pub hashed : r.user.password_hash ≡ some (hash_password pf salt password)
  pub users : db'.users ≡ insert_row db.users r.user

register-IsRegistered :
    (pf : Platform) (e : Environment) (now : ℕ) (input : RegisterInput) (salt : Text) (draw : ℕ)
    (delivered : Bool) (db : AuthDb) (r : Registration)
    → (register_with_email pf e now input salt draw delivered db).0 ≡ ok r
    → (email : Text) × (password : Text) × IsRegistered pf input salt db
        (register_with_email pf e now input salt draw delivered db).1
        r
        email
        password
unfolding register_with_email insert_user
register-IsRegistered pf e now input salt draw delivered db r h =
    elim (Result-cases (normalize_email pf input.email)) [
      | inr (x, f) ↦ absurd (ground arith)
      | inl (email, a) ↦ elim (Result-cases (normalize_username pf input.username)) [
        | inr (x, f) ↦ absurd (ground arith)
        | inl (username, b) ↦ elim (Result-cases (normalize_display_name input.display_name)) [
          | inr (x, f) ↦ absurd (ground arith)
          | inl (name, c) ↦ elim (Result-cases (normalize_password input.password true)) [
            | inr (x, f) ↦ absurd (ground arith)
            | inl (password, d) ↦
                let u : UserEntity =
                  new_user pf email username name password salt input.avatar_url db.next_id in
                let stored : AuthDb = record db {
                  users = insert_row db.users u;
                  next_id = suc db.next_id;
                } in
                let rest = try_to_verify-users pf e now u draw delivered stored r in
                (
                  email,
                  password,
                  record {
                    address = a;
                    secret = d;
                    free = ground arith;
                    has_address = ground (arith, rest);
                    by_email = ground (arith, rest);
                    hashed = ground (arith, rest);
                    users = ground (arith, rest);
                  },
                )
          ]
        ]
      ]
    ]

login-registered :
    (pf : Platform) (input : RegisterInput) (salt : Text) (db db' : AuthDb) (r : Registration)
    (email password : Text)
    → IsHashing pf
    → lacks b':' salt ≡ true
    → salt ≢ []
    → IsRegistered pf input salt db db' r email password
    → (login_with_email pf input.email input.password db').0 ≡ ok r.user
unfolding login_with_email find_password_user
login-registered pf input salt db db' r email password hashing clean full done =
    let hash : Text = hash_password pf salt password in
    let found =
      find_one-added_user (has_email email) db.users r.user done.free
        (ground (arith, done.has_address, same_text_refl email)) in
    ground (
      arith,
      done.address,
      normalize_password-tried input.password password done.secret,
      found,
      done.users,
      password_user-hashed r.user hash done.by_email done.hashed
          (hash_password-non_empty pf salt password),
      verify_password-hash_password pf salt password hashing clean full,
    )

-- Whoever registers can sign in with the same address and password, also where the mail could not be
-- sent. The salt and the derived key are texts that are not empty and have no colon.
pub login_with_email-register_with_email :
    (pf : Platform) (e : Environment) (now : ℕ) (input : RegisterInput) (salt : Text) (draw : ℕ)
    (delivered : Bool) (db : AuthDb) (r : Registration)
    → IsHashing pf
    → lacks b':' salt ≡ true
    → salt ≢ []
    → (register_with_email pf e now input salt draw delivered db).0 ≡ ok r
    → (login_with_email pf input.email input.password
        (register_with_email pf e now input salt draw delivered db).1).0
      ≡ ok r.user
login_with_email-register_with_email pf e now input salt draw delivered db r hashing clean full h =
    let (email, password, done) = register-IsRegistered pf e now input salt draw delivered db r h in
    login-registered pf input salt db _ r email password hashing clean full done
