-- ===== src/Auth/Spent.antt =====
-- A code that was used is not accepted again, nor any other until a new one is sent.
use agentschat.Prelude.{
  ℕ, suc, ◌≤◌, ◌≡◌, refl, Bool, true, false, inl, inr, List, [], ◌∷◌, none, some, arith, ltb, ◌==◌,
  Bool-cases,
}
use agentschat.Prelude.Table.{find_one, find_by, exists, update}
use agentschat.Prelude.Rows.{find_one-exists}
use agentschat.Prelude.Distinct.{distinct}
use agentschat.Prelude.Count.{count, count-exists}
use agentschat.Prelude.Action.{ok, is_ok, Result-cases}
use agentschat.Text.{Text}
use agentschat.Auth.Store.{AuthEmailCodeEntity, AuthDb, Refusal, Platform, code_by_id, save_code}
use agentschat.Auth.Normalize.{normalize_email_code}
use agentschat.Auth.Codes.{
  CodeKey, is_active_code, consumed, newest, find_active_email_code, consume_email_code,
  require_valid_email_code,
}
use agentschat.Auth.Saved.{same_id, has_distinct_ids}
use agentschat.Auth.Accepted.{IsAccepted-active, require_valid_email_code-IsAccepted}
use agentschat.Auth.Sent.{later_none_active}

module _ (p : AuthEmailCodeEntity → Bool) (c d : AuthEmailCodeEntity) where
  kept :
      (rows : List AuthEmailCodeEntity)
      → exists (code_by_id c.id) rows ≡ false
      → count p (update (code_by_id c.id) (λ r. d) rows) ≡ count p rows
  unfolding count update exists
  kept [] h = refl
  kept (r ∷ rows) h = ground (arith, kept rows)

  -- One row that fits fewer.
  count-replaced :
      (rows : List AuthEmailCodeEntity)
      → distinct same_id rows ≡ true
      → find_one (code_by_id c.id) rows ≡ some c
      → p c ≡ true
      → p d ≡ false
      → suc (count p (update (code_by_id c.id) (λ r. d) rows)) ≡ count p rows
  unfolding count update find_one distinct
  count-replaced [] u e h i = absurd (ground arith)
  count-replaced (r ∷ rows) u e h i = elim (Bool-cases (r.id == c.id)) [
    | inl here ↦ ground (arith, kept rows)
    | inr there ↦ ground (arith, count-replaced rows)
  ]

newest-none :
    (p : AuthEmailCodeEntity → Bool) (rows : List AuthEmailCodeEntity)
    → exists p rows ≡ false
    → newest (find_by p rows) ≡ none
unfolding newest find_by exists
newest-none p [] h = refl
newest-none p (r ∷ rows) h = ground (arith, newest-none p rows)

-- At most one code of the key is active.
unfoldable pub has_single_code : ℕ → CodeKey → AuthDb → Bool
unfolding count
has_single_code now key db = ltb (count (is_active_code now key) db.email_codes) 2

pub consume-none_active :
    (now : ℕ) (key : CodeKey) (db : AuthDb) (c : AuthEmailCodeEntity)
    → has_distinct_ids db ≡ true
    → has_single_code now key db ≡ true
    → find_one (code_by_id c.id) db.email_codes ≡ some c
    → is_active_code now key c ≡ true
    → exists (is_active_code now key) (consume_email_code now c db).1.email_codes ≡ false
unfolding has_distinct_ids has_single_code consume_email_code save_code
consume-none_active now key db c ids single found active =
    let gone =
      count-replaced (is_active_code now key) c (consumed now c) db.email_codes ids found active
        (ground arith) in
    let none_left =
      count-exists (is_active_code now key)
        (update (code_by_id c.id) (λ r. consumed now c) db.email_codes) (ground arith) in
    ground (arith, none_left, find_one-exists (code_by_id c.id) db.email_codes)

pub refused-none_active :
    (pf : Platform) (now : ℕ) (key : CodeKey) (code : Text) (x : Refusal) (db : AuthDb)
    → exists (is_active_code now key) db.email_codes ≡ false
    → is_ok (require_valid_email_code pf now key code x db).0 ≡ false
unfolding require_valid_email_code find_active_email_code
refused-none_active pf now key code x db h = elim (Result-cases (normalize_email_code code)) [
  | inl (submitted, e) ↦ ground (arith, newest-none (is_active_code now key) db.email_codes h)
  | inr (y, e) ↦ ground arith
]

-- Where ids are distinct and a user, address and purpose have at most one active code, once a guess was
-- accepted and its code consumed, every later guess is refused until another code is sent.
pub require_valid_email_code-used :
    (pf : Platform) (now later : ℕ) (key : CodeKey) (code guess : Text) (x y : Refusal)
    (db : AuthDb) (c : AuthEmailCodeEntity)
    → has_distinct_ids db ≡ true
    → has_single_code now key db ≡ true
    → (require_valid_email_code pf now key code x db).0 ≡ ok c
    → now ≤ later
    → is_ok (require_valid_email_code pf later key guess y (consume_email_code now c db).1).0
      ≡ false
require_valid_email_code-used pf now later key code guess x y db c ids single h l =
    let (submitted, accepted, same) =
      require_valid_email_code-IsAccepted pf now key code x db c ids h in
    let none_left =
      consume-none_active now key db c ids single accepted.in_table
        (IsAccepted-active pf now key code db c submitted accepted) in
    refused-none_active pf later key guess y (consume_email_code now c db).1
      (later_none_active now later key (consume_email_code now c db).1.email_codes l none_left)
