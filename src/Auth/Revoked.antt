-- ===== src/Auth/Revoked.antt =====
-- Tokens after a password reset.
use agentschat.Prelude.{
  ℕ, ◌≡◌, refl, sym, ap, ◌∙◌, Bool, true, false, inl, inr, List, [], ◌∷◌, some, arith, ◌==◌,
  if◌then◌else◌, Bool-cases, Option-cases,
}
use agentschat.Prelude.Table.{find_one, update}
use agentschat.Prelude.Rows.{find_one-exists, find_one-holds}
use agentschat.Prelude.Distinct.{distinct}
use agentschat.Prelude.Action.{ok, err, Result-cases}
use agentschat.Text.{Text}
use agentschat.Auth.Store.{UserEntity, AuthDb, Refusal, Platform, user_by_id, save_user}
use agentschat.Auth.Accounts.{
  AuthOperationResponse, has_email, with_password, to_authenticated_human, confirm_password_reset,
}
use agentschat.Auth.Reset.{
  find_password_user-found, find_one-replaced_user, confirm_password_reset-IsReset,
}
use agentschat.Auth.Sessions.{session_of, authenticate-verified}
use agentschat.Auth.Tokens.{Session, HumanTokenPayload, verify_token, authenticate_human_token}

abbrev pub same_user : UserEntity → UserEntity → Bool
same_user u v = v.id == u.id

-- No two users share an id.
unfoldable pub has_distinct_users : AuthDb → Bool
unfolding distinct
has_distinct_users db = distinct same_user db.users

-- With distinct ids, the row that a query finds is found by its id.
pub find_one-by_id :
    (p : UserEntity → Bool) (us : List UserEntity) (u : UserEntity)
    → distinct same_user us ≡ true
    → find_one p us ≡ some u
    → find_one (user_by_id u.id) us ≡ some u
unfolding find_one distinct
find_one-by_id p [] u h e = absurd (ground arith)
find_one-by_id p (d ∷ ds) u h e = elim (Bool-cases (p d)) [
  | inl fits ↦ ground arith
  | inr other ↦
      let rest = find_one-by_id p ds u (ground arith) (ground arith) in
      ground (arith, rest, find_one-exists (user_by_id u.id) ds)
]

find_one-other_user :
    (i : ℕ) (v : UserEntity) (us : List UserEntity)
    → (v.id == i) ≡ false
    → find_one (user_by_id i) (update (user_by_id v.id) (λ r. v) us) ≡ find_one (user_by_id i) us
unfolding find_one update
find_one-other_user i v [] h = refl
find_one-other_user i v (d ∷ ds) h = ground (arith, find_one-other_user i v ds)

-- What a look-up by id finds after the save of a user who is there.
find_one-save_user :
    (i : ℕ) (u v : UserEntity) (db : AuthDb)
    → find_one (user_by_id u.id) db.users ≡ some u
    → v.id ≡ u.id
    → find_one (user_by_id i) (save_user v db).1.users
      ≡ (if v.id == i then some v else find_one (user_by_id i) db.users)
unfolding save_user
find_one-save_user i u v db found same = elim (Bool-cases (v.id == i)) [
  | inl here ↦ ground (
    arith,
    find_one-exists (user_by_id u.id) db.users,
    find_one-replaced_user (user_by_id i) u v db.users,
  )
  | inr other ↦
      ground
        (arith, find_one-exists (user_by_id u.id) db.users, find_one-other_user i v db.users other)
]

-- The session of a token, before and after the row of a user gets the next version.
session_of-revoked :
    (pf : Platform) (now : ℕ) (password salt : Text) (u : UserEntity) (p : HumanTokenPayload)
    (s : Session) (db : AuthDb)
    → find_one (user_by_id u.id) db.users ≡ some u
    → session_of p (find_one (user_by_id p.sub) db.users) ≡ ok s
    → session_of p
        (find_one (user_by_id p.sub) (save_user (with_password pf now salt password u) db).1.users)
      ≡ (if s.human.id == u.id then err Refusal.token_not_current else ok s)
unfolding to_authenticated_human
session_of-revoked pf now password salt u p s db found signed =
    elim (Option-cases (find_one (user_by_id p.sub) db.users)) [
      | inl n ↦ absurd (ground arith)
      | inr (v, e) ↦ ground (
        arith,
        find_one-holds (user_by_id p.sub) db.users v e,
        find_one-save_user p.sub u (with_password pf now salt password u) db found refl,
      )
    ]

authenticate-after_reset :
    (pf : Platform) (now : ℕ) (password salt : Text) (u : UserEntity) (later : ℕ) (token : Text)
    (s : Session) (db db' : AuthDb)
    → find_one (user_by_id u.id) db.users ≡ some u
    → db'.users ≡ (save_user (with_password pf now salt password u) db).1.users
    → (authenticate_human_token pf later token db).0 ≡ ok s
    → (authenticate_human_token pf later token db').0
      ≡ (if s.human.id == u.id then err Refusal.token_not_current else ok s)
unfolding authenticate_human_token
authenticate-after_reset pf now password salt u later token s db db' found users signed =
    elim (Result-cases (verify_token pf later token)) [
      | inr (x, e) ↦ absurd (ground arith)
      | inl (p, e) ↦
          let before = authenticate-verified pf later token db p e in
          let after = authenticate-verified pf later token db' p e in
          let revoked =
            session_of-revoked pf now password salt u p s db found (sym before ∙ signed) in
          after ∙ (ap (λ us. session_of p (find_one (user_by_id p.sub) us)) users ∙ revoked)
    ]

-- After a password reset, of the tokens that signed humans in before it, those of the human whose
-- password it is are refused as not current, and those of others still sign them in, if ids of users
-- are distinct.
pub confirm_password_reset-revokes :
    (pf : Platform) (now : ℕ) (email code password salt : Text) (db : AuthDb)
    (r : AuthOperationResponse) (i later : ℕ) (token : Text) (s : Session)
    → has_distinct_users db ≡ true
    → (confirm_password_reset pf now email code password salt db).0 ≡ ok r
    → (confirm_password_reset pf now email code password salt db).1.invalidated ≡ i ∷ db.invalidated
    → (authenticate_human_token pf later token db).0 ≡ ok s
    → (authenticate_human_token pf later token
        (confirm_password_reset pf now email code password salt db).1).0
      ≡ (if s.human.id == i then err Refusal.token_not_current else ok s)
unfolding has_distinct_users
confirm_password_reset-revokes pf now email code password salt db r i later token s ids h told
      signed =
    let (u, hash, address, new_password, c, done) =
      confirm_password_reset-IsReset pf now email code salt db r password h in
    let row =
      find_one-by_id (has_email address) db.users u ids
        (find_password_user-found address db u hash done.account) in
    let revoked =
      authenticate-after_reset pf now new_password salt u later token s db _ row done.users
        signed in
    let same : u.id ≡ i = ground (arith, done.invalidated, told) in
    revoked ∙ ap (λ k. if s.human.id == k then err Refusal.token_not_current else ok s) same
