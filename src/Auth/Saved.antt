-- ===== src/Auth/Saved.antt =====
-- The table of codes after a copy was saved, and what a look-up finds in it.
use agentschat.Prelude.{
  ℕ, ◌≡◌, Bool, true, false, inl, inr, List, [], ◌∷◌, Option, none, some, arith, ◌==◌,
  if◌then◌else◌, Bool-cases, Option-cases,
}
use agentschat.Prelude.Table.{find_one, find_by, exists, update, insert_row}
use agentschat.Prelude.Rows.{find_one-exists}
use agentschat.Prelude.Distinct.{distinct, distinct-update, distinct-insert_row}
use agentschat.Auth.Store.{AuthEmailCodeEntity, AuthDb, code_by_id, save_code}
use agentschat.Auth.Codes.{CodeKey, is_active_code, newest, find_active_email_code}

abbrev pub same_id : AuthEmailCodeEntity → AuthEmailCodeEntity → Bool
same_id c d = d.id == c.id

-- No two codes share an id.
unfoldable pub has_distinct_ids : AuthDb → Bool
unfolding distinct
has_distinct_ids db = distinct same_id db.email_codes

abbrev pub attempts_of : Option AuthEmailCodeEntity → ℕ
attempts_of none = 0
attempts_of (some c) = c.attempt_count

abbrev pub attempts : ℕ → AuthDb → ℕ
attempts i db = attempts_of (find_one (code_by_id i) db.email_codes)

-- What is found by an id after a row was replaced, or added where there was none.
find_one-replaced :
    (i : ℕ) (c : AuthEmailCodeEntity) (cs : List AuthEmailCodeEntity)
    → find_one (code_by_id i) (update (code_by_id c.id) (λ r. c) cs) ≡ (
        if c.id == i
        then if exists (code_by_id c.id) cs then some c else none
        else find_one (code_by_id i) cs)
unfolding find_one update exists
find_one-replaced i c [] = ground arith
find_one-replaced i c (d ∷ ds) = ground (arith, find_one-replaced i c ds)

find_one-added :
    (i : ℕ) (c : AuthEmailCodeEntity) (cs : List AuthEmailCodeEntity)
    → exists (code_by_id c.id) cs ≡ false
    → find_one (code_by_id i) (insert_row cs c)
      ≡ (if c.id == i then some c else find_one (code_by_id i) cs)
unfolding find_one insert_row exists
find_one-added i c [] h = ground arith
find_one-added i c (d ∷ ds) h = ground (arith, find_one-added i c ds)

pub find_one-save_code :
    (i : ℕ) (c : AuthEmailCodeEntity) (db : AuthDb)
    → find_one (code_by_id i) (save_code c db).1.email_codes
      ≡ (if c.id == i then some c else find_one (code_by_id i) db.email_codes)
unfolding save_code
find_one-save_code i c db = elim (Bool-cases (exists (code_by_id c.id) db.email_codes)) [
  | inl there ↦ ground (arith, find_one-replaced i c db.email_codes)
  | inr gone ↦ ground (arith, find_one-added i c db.email_codes)
]

pub save_code-has_distinct_ids :
    (c : AuthEmailCodeEntity) (db : AuthDb)
    → has_distinct_ids db ≡ true
    → has_distinct_ids (save_code c db).1 ≡ true
unfolding save_code has_distinct_ids
save_code-has_distinct_ids c db h = elim (Bool-cases (exists (code_by_id c.id) db.email_codes)) [
  | inl there ↦ ground (
    arith,
    h,
    distinct-update same_id (code_by_id c.id) (λ r. c) (λ x y p. ground arith)
        (λ x y p. ground arith) db.email_codes,
  )
  | inr gone ↦ ground (arith, h, distinct-insert_row same_id db.email_codes c)
]

-- The newest of the rows that fit is the row with its id.
newest_found :
    (p : AuthEmailCodeEntity → Bool) (cs : List AuthEmailCodeEntity) (c : AuthEmailCodeEntity)
    → distinct same_id cs ≡ true
    → newest (find_by p cs) ≡ some c
    → (find_one (code_by_id c.id) cs ≡ some c) × (p c ≡ true)
unfolding newest find_by find_one distinct
newest_found p [] c h e = absurd (ground arith)
newest_found p (d ∷ ds) c h e = elim (Option-cases (newest (find_by p ds))) [
  | inl none_left ↦ ground arith
  | inr (b, f) ↦
      let found = newest_found p ds b (ground arith) f in
      ground (arith, found, find_one-exists (code_by_id b.id) ds)
]

pub find_active_found :
    (now : ℕ) (key : CodeKey) (db : AuthDb) (c : AuthEmailCodeEntity)
    → has_distinct_ids db ≡ true
    → find_active_email_code now key db ≡ some c
    → (find_one (code_by_id c.id) db.email_codes ≡ some c) × (is_active_code now key c ≡ true)
unfolding find_active_email_code has_distinct_ids
find_active_found now key db c h e = newest_found (is_active_code now key) db.email_codes c h e
