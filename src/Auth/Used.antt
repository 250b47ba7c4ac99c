-- ===== src/Auth/Used.antt =====
-- Password resets that follow each other.
use agentschat.Prelude.{
  ℕ, ◌≤◌, ◌≡◌, refl, sym, subst, ap, ◌∙◌, Bool, true, false, inl, inr, List, [], ◌∷◌, some, arith,
  ltb,
}
use agentschat.Prelude.Table.{find_one, exists, insert_row}
use agentschat.Prelude.Rows.{find_one-exists_of, find_one-holds}
use agentschat.Prelude.Count.{count}
use agentschat.Prelude.Action.{ok, is_ok, Result-cases}
use agentschat.Text.{Text}
use agentschat.Auth.Store.{
  AuthEmailCodePurpose, AuthEmailCodeEntity, UserEntity, AuthDb, Refusal, Platform, save_user,
  user_by_id,
}
use agentschat.Auth.Normalize.{normalize_email}
use agentschat.Auth.Codes.{
  CodeKey, is_active_code, consume_email_code, invalidate_active_email_codes, new_code,
  create_and_send_email_code,
}
use agentschat.Auth.Saved.{has_distinct_ids}
use agentschat.Auth.Accepted.{IsAccepted-active, require_valid_email_code-IsAccepted}
use agentschat.Auth.Sent.{later_none_active, invalidate-none_active, create_and_send-codes}
use agentschat.Auth.Accounts.{
  AuthOperationResponse, key_of, find_password_user, has_email, with_password,
  confirm_password_reset,
}
use agentschat.Auth.Reset.{
  IsReset, reset_key, find_password_user-found, find_one-replaced_user,
  confirm_password_reset-IsReset,
}
use agentschat.Auth.Spent.{has_single_code, consume-none_active, refused-none_active}

find_one-after_reset :
    (pf : Platform) (now : ℕ) (email_input code salt : Text) (db db' : AuthDb) (u : UserEntity)
    (hash email password : Text) (c : AuthEmailCodeEntity)
    → IsReset pf now email_input code salt db db' u hash email password c
    → find_one (has_email email) db'.users ≡ some (with_password pf now salt password u)
unfolding save_user
find_one-after_reset pf now email_input code salt db db' u hash email password c done =
    let found = find_password_user-found email db u hash done.account in
    let next : UserEntity = with_password pf now salt password u in
    let fits = find_one-holds (has_email email) db.users u found in
    let there =
      find_one-exists_of (has_email email) (user_by_id u.id) db.users u found (ground arith) in
    ground (
      arith,
      done.users,
      there,
      find_one-replaced_user (has_email email) u next db.users found fits refl,
    )

-- A second reset of the same address would use a code of the same key.
second_reset :
    (pf : Platform) (now later : ℕ) (email_input code guess salt salt2 : Text) (db db' db2 : AuthDb)
    (u v : UserEntity) (hash hash2 email email2 password password2 : Text)
    (c d : AuthEmailCodeEntity)
    → has_distinct_ids db ≡ true
    → has_single_code now (reset_key email u) db ≡ true
    → now ≤ later
    → IsReset pf now email_input code salt db db' u hash email password c
    → IsReset pf later email_input guess salt2 db' db2 v hash2 email2 password2 d
    → true ≡ false
second_reset pf now later email_input code guess salt salt2 db db' db2 u v hash hash2 email email2
      password password2 c d ids single l done again =
    let same_address : email2 ≡ email = ground (arith, done.address, again.address) in
    let found = find_password_user-found email2 db' v hash2 again.account in
    let next =
      find_one-after_reset pf now email_input code salt db db' u hash email password c done in
    let same_key : reset_key email2 v ≡ reset_key email u =
      ground (arith, same_address, found, next) in
    let (submitted, accepted, same) =
      require_valid_email_code-IsAccepted pf now (reset_key email u) code Refusal.invalid_reset_code
        db c ids done.accepted in
    let none_left =
      consume-none_active now (reset_key email u) db c ids single accepted.in_table
        (IsAccepted-active pf now (reset_key email u) code db c submitted accepted) in
    let gone =
      later_none_active now later (reset_key email u) (consume_email_code now c db).1.email_codes l
        none_left in
    let refused =
      refused-none_active pf later (reset_key email u) guess Refusal.invalid_reset_code db'
        (ap (λ cs. exists (is_active_code later (reset_key email u)) cs) done.email_codes ∙ gone) in
    ground (arith, refused, same_key, again.accepted)

-- Where the account that is reset has at most one active code, a second reset is refused.
confirm_password_reset-used :
    (pf : Platform) (now later : ℕ) (email code guess password password2 salt salt2 : Text)
    (db : AuthDb) (r : AuthOperationResponse)
    → has_distinct_ids db ≡ true
    → ((address : Text) (u : UserEntity) (hash : Text)
        → normalize_email pf email ≡ ok address
        → find_password_user address db ≡ some (u, hash)
        → has_single_code now (reset_key address u) db ≡ true)
    → (confirm_password_reset pf now email code password salt db).0 ≡ ok r
    → now ≤ later
    → is_ok
        (confirm_password_reset pf later email guess password2 salt2
          (confirm_password_reset pf now email code password salt db).1).0
      ≡ false
confirm_password_reset-used pf now later email code guess password password2 salt salt2 db r ids
      single h l =
    let db' : AuthDb = (confirm_password_reset pf now email code password salt db).1 in
    let (u, hash, address, secret, c, done) =
      confirm_password_reset-IsReset pf now email code salt db r password h in
    elim (Result-cases (confirm_password_reset pf later email guess password2 salt2 db').0) [
      | inr (x, e) ↦ ground (arith, e)
      | inl (r2, e) ↦
          let (v, hash2, address2, secret2, d, again) =
            confirm_password_reset-IsReset pf later email guess salt2 db' r2 password2 e in
          absurd (
            ground (
              arith,
              second_reset pf now later email code guess salt salt2 db db' _ u v hash hash2 address
                  address2 secret secret2 c d ids (single address u hash done.address done.account)
                  l done again,
            ))
    ]

count-none_but :
    (p : AuthEmailCodeEntity → Bool) (c : AuthEmailCodeEntity) (rows : List AuthEmailCodeEntity)
    → exists p rows ≡ false
    → ltb (count p (insert_row rows c)) 2 ≡ true
unfolding count insert_row exists
count-none_but p c [] h = ground arith
count-none_but p c (r ∷ rows) h = ground (arith, count-none_but p c rows)

-- A code that is sent leaves no other of its key active.
create_and_send-single :
    (pf : Platform) (sent now : ℕ) (key : CodeKey) (ttl draw : ℕ) (db : AuthDb)
    → sent ≤ now
    → has_single_code now key (create_and_send_email_code pf sent key ttl draw true db).1 ≡ true
unfolding has_single_code
create_and_send-single pf sent now key ttl draw db l =
    let before = (invalidate_active_email_codes sent key db).1.email_codes in
    let none_left = later_none_active sent now key before l (invalidate-none_active sent key db) in
    ap (λ rows. ltb (count (is_active_code now key) rows) 2)
      (create_and_send-codes pf sent key ttl draw db)
    ∙ count-none_but (is_active_code now key) (new_code pf sent key ttl draw db.next_id) before
        none_left

-- Where a reset code was mailed to an account, ids of codes are distinct, and a reset of the account
-- by any code is then accepted, a further reset of the same address is refused whatever its code, if
-- nothing else happens between the three.
pub confirm_password_reset_once :
    (pf : Platform) (sent now later ttl draw : ℕ) (u : UserEntity)
    (email hash code guess password password2 salt salt2 : Text) (db : AuthDb)
    (r : AuthOperationResponse)
    → let key = key_of u AuthEmailCodePurpose.password_reset in
      let mailed = (create_and_send_email_code pf sent key ttl draw true db).1 in
      has_distinct_ids mailed ≡ true
      → normalize_email pf email ≡ ok u.email
      → find_password_user u.email mailed ≡ some (u, hash)
      → (confirm_password_reset pf now email code password salt mailed).0 ≡ ok r
      → sent ≤ now
      → now ≤ later
      → is_ok
          (confirm_password_reset pf later email guess password2 salt2
            (confirm_password_reset pf now email code password salt mailed).1).0
        ≡ false
confirm_password_reset_once pf sent now later ttl draw u email hash code guess password password2
      salt salt2 db r ids address account h first second =
    let key : CodeKey = key_of u AuthEmailCodePurpose.password_reset in
    let mailed : AuthDb = (create_and_send_email_code pf sent key ttl draw true db).1 in
    let single = create_and_send-single pf sent now key ttl draw db first in
    confirm_password_reset-used pf now later email code guess password password2 salt salt2 mailed r
      ids
      (λ a v x e f.
        let same_address : u.email ≡ a = ground arith in
        let found : find_password_user u.email mailed ≡ some (v, x) =
          subst (λ z. find_password_user z mailed ≡ some (v, x)) (sym same_address) f in
        let same_user : u ≡ v = ground arith in
        subst (λ z. has_single_code now (reset_key z v) mailed ≡ true) same_address
          (subst (λ w. has_single_code now (reset_key u.email w) mailed ≡ true) same_user single))
      h second
