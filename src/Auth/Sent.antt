-- ===== src/Auth/Sent.antt =====
-- A code that was sent: it is the only active one of its user, address and purpose, and it is accepted
-- until it expires.
use agentschat.Prelude.{
  ℕ, ◌+◌, ◌*◌, ◌≤◌, ◌<◌, ◌≡◌, refl, ap, ◌∙◌, Bool, true, false, not, ◌||◌, inl, inr, List, [], ◌∷◌,
  some, arith, Bool-cases,
}
use agentschat.Prelude.Table.{find_by, exists, update, insert_row}
use agentschat.Prelude.Every.{every}
use agentschat.Prelude.Action.{ok}
use agentschat.Text.{same_text_refl}
use agentschat.Auth.Store.{
  AuthEmailCodePurpose, AuthEmailCodeEntity, AuthDb, Refusal, Platform, code_by_id, save_code,
  same_purpose,
}
use agentschat.Auth.Normalize.{hash_email_code, generate_email_code}
use agentschat.Auth.Codes.{
  CodeKey, is_active_code, consumed, newest, find_active_email_code, answer_guess, judge_code,
  require_valid_email_code, save_codes, consume_each, invalidate_active_email_codes, new_code,
  insert_code, create_and_send_email_code,
}
use agentschat.Auth.Digits.{normalize_email_code-generate_email_code}
use agentschat.Auth.Signing.{matches_refl}

module _ (p : AuthEmailCodeEntity → Bool) where
  -- Every row that fits has its id among the copies.
  abbrev covered : List AuthEmailCodeEntity → AuthEmailCodeEntity → Bool
  covered cs r = not (p r) || exists (code_by_id r.id) cs

  covered-more :
      (c : AuthEmailCodeEntity) (cs rows : List AuthEmailCodeEntity)
      → every (covered cs) rows ≡ true
      → every (covered (c ∷ cs)) rows ≡ true
  unfolding every exists
  covered-more c cs [] h = refl
  covered-more c cs (r ∷ rows) h = ground (arith, covered-more c cs rows)

  -- What is read covers what is there.
  covered-find_by : (rows : List AuthEmailCodeEntity) → every (covered (find_by p rows)) rows ≡ true
  unfolding every find_by exists
  covered-find_by [] = refl
  covered-find_by (r ∷ rows) =
      ground (arith, covered-find_by rows, covered-more r (find_by p rows) rows)

  covered-none :
      (rows : List AuthEmailCodeEntity) → every (covered []) rows ≡ true → exists p rows ≡ false
  unfolding every exists
  covered-none [] h = refl
  covered-none (r ∷ rows) h = ground (arith, covered-none rows)

  module _ (c : AuthEmailCodeEntity) (unfit : p c ≡ false) where
    covered-replaced :
        (d : AuthEmailCodeEntity) (cs rows : List AuthEmailCodeEntity)
        → d.id ≡ c.id
        → every (covered (d ∷ cs)) rows ≡ true
        → every (covered cs) (update (code_by_id c.id) (λ r. c) rows) ≡ true
    unfolding every update exists
    covered-replaced d cs [] e h = refl
    covered-replaced d cs (r ∷ rows) e h = ground (arith, unfit, covered-replaced d cs rows e)

    covered-dropped :
        (d : AuthEmailCodeEntity) (cs rows : List AuthEmailCodeEntity)
        → d.id ≡ c.id
        → exists (code_by_id c.id) rows ≡ false
        → every (covered (d ∷ cs)) rows ≡ true
        → every (covered cs) (insert_row rows c) ≡ true
    unfolding every insert_row exists
    covered-dropped d cs [] e g h = ground (arith, unfit)
    covered-dropped d cs (r ∷ rows) e g h = ground (arith, unfit, covered-dropped d cs rows e)

    covered-save_code :
        (d : AuthEmailCodeEntity) (cs : List AuthEmailCodeEntity) (db : AuthDb)
        → d.id ≡ c.id
        → every (covered (d ∷ cs)) db.email_codes ≡ true
        → every (covered cs) (save_code c db).1.email_codes ≡ true
    unfolding save_code
    covered-save_code d cs db e h = elim (Bool-cases (exists (code_by_id c.id) db.email_codes)) [
      | inl there ↦ ground (arith, covered-replaced d cs db.email_codes e h)
      | inr gone ↦ ground (arith, covered-dropped d cs db.email_codes e gone h)
    ]

  save_codes-covered :
      (now : ℕ)
      → ((c : AuthEmailCodeEntity) → p (consumed now c) ≡ false)
      → (cs : List AuthEmailCodeEntity) (db : AuthDb) → every (covered cs) db.email_codes ≡ true
      → exists p (save_codes (consume_each now cs) db).1.email_codes ≡ false
  unfolding save_codes consume_each save_code
  save_codes-covered now unfit [] db h = covered-none db.email_codes h
  save_codes-covered now unfit (c ∷ cs) db h =
      save_codes-covered now unfit cs (save_code (consumed now c) db).1
        (covered-save_code (consumed now c) (unfit c) c cs db refl h)

  newest_added :
      (c : AuthEmailCodeEntity) (rows : List AuthEmailCodeEntity)
      → exists p rows ≡ false
      → p c ≡ true
      → newest (find_by p (insert_row rows c)) ≡ some c
  unfolding newest find_by insert_row exists
  newest_added c [] h i = ground arith
  newest_added c (r ∷ rows) h i = ground (arith, newest_added c rows)

save_codes-next_id :
    (cs : List AuthEmailCodeEntity) (db : AuthDb)
    → ((save_codes cs db).1.next_id ≡ db.next_id) × ((save_codes cs db).0 ≡ ok tt)
unfolding save_codes save_code
save_codes-next_id [] db = (refl, refl)
save_codes-next_id (c ∷ cs) db = save_codes-next_id cs (save_code c db).1

-- A code that is not active now is not active later.
pub later_none_active :
    (now later : ℕ) (key : CodeKey) (rows : List AuthEmailCodeEntity)
    → now ≤ later
    → exists (is_active_code now key) rows ≡ false
    → exists (is_active_code later key) rows ≡ false
unfolding exists
later_none_active now later key [] h g = refl
later_none_active now later key (r ∷ rows) h g =
    ground (arith, later_none_active now later key rows)

pub invalidate-none_active :
    (now : ℕ) (key : CodeKey) (db : AuthDb)
    → exists (is_active_code now key) (invalidate_active_email_codes now key db).1.email_codes
      ≡ false
unfolding invalidate_active_email_codes
invalidate-none_active now key db =
    save_codes-covered (is_active_code now key) now (λ c. ground arith)
      (find_by (is_active_code now key) db.email_codes) db
      (covered-find_by (is_active_code now key) db.email_codes)

invalidate-next_id :
    (now : ℕ) (key : CodeKey) (db : AuthDb)
    → ((invalidate_active_email_codes now key db).1.next_id ≡ db.next_id)
      × ((invalidate_active_email_codes now key db).0 ≡ ok tt)
unfolding invalidate_active_email_codes
invalidate-next_id now key db = save_codes-next_id _ db

-- The table after a code was sent: that of before, with no active code, and the new one.
pub create_and_send-codes :
    (pf : Platform) (now : ℕ) (key : CodeKey) (ttl draw : ℕ) (db : AuthDb)
    → (create_and_send_email_code pf now key ttl draw true db).1.email_codes
      ≡ insert_row
          (invalidate_active_email_codes now key db).1.email_codes
          (new_code pf now key ttl draw db.next_id)
unfolding create_and_send_email_code insert_code
create_and_send-codes pf now key ttl draw db = ground (arith, invalidate-next_id now key db)

same_purpose_refl : (p : AuthEmailCodePurpose) → same_purpose p p ≡ true
same_purpose_refl AuthEmailCodePurpose.email_verification = refl
same_purpose_refl AuthEmailCodePurpose.password_reset = refl

new_code-active :
    (pf : Platform) (now later : ℕ) (key : CodeKey) (ttl draw i : ℕ)
    → later < now + ttl * 1000
    → is_active_code later key (new_code pf now key ttl draw i) ≡ true
new_code-active pf now later key ttl draw i h =
    ground (arith, same_text_refl key.email, same_purpose_refl key.purpose)

create_and_send-found :
    (pf : Platform) (now later : ℕ) (key : CodeKey) (ttl draw : ℕ) (db : AuthDb)
    → now ≤ later
    → later < now + ttl * 1000
    → find_active_email_code later key (create_and_send_email_code pf now key ttl draw true db).1
      ≡ some (new_code pf now key ttl draw db.next_id)
unfolding find_active_email_code
create_and_send-found pf now later key ttl draw db h i =
    let before : List AuthEmailCodeEntity =
      (invalidate_active_email_codes now key db).1.email_codes in
    let new : AuthEmailCodeEntity = new_code pf now key ttl draw db.next_id in
    ap (λ rows. newest (find_by (is_active_code later key) rows))
      (create_and_send-codes pf now key ttl draw db)
    ∙ newest_added (is_active_code later key) new before
        (later_none_active now later key before h (invalidate-none_active now key db))
        (new_code-active pf now later key ttl draw db.next_id i)

judge_code-matching :
    (pf : Platform) (now later : ℕ) (key : CodeKey) (ttl draw i : ℕ) (x : Refusal) (db : AuthDb)
    → (judge_code pf later key (generate_email_code draw) x (new_code pf now key ttl draw i) db).0
      ≡ ok (new_code pf now key ttl draw i)
unfolding judge_code answer_guess
judge_code-matching pf now later key ttl draw i x db =
    ground
      (arith, matches_refl (hash_email_code pf key.email key.purpose (generate_email_code draw)))

-- A code that was mailed is accepted from then until it expires, if nothing else happens.
pub require_valid_email_code-sent :
    (pf : Platform) (now later : ℕ) (key : CodeKey) (ttl draw : ℕ) (x : Refusal) (db : AuthDb)
    → draw < 1000000
    → now ≤ later
    → later < now + ttl * 1000
    → (require_valid_email_code pf later key
        (generate_email_code draw)
        x
        (create_and_send_email_code pf now key ttl draw true db).1).0
      ≡ ok (new_code pf now key ttl draw db.next_id)
unfolding require_valid_email_code
require_valid_email_code-sent pf now later key ttl draw x db small h i =
    let sent : AuthDb = (create_and_send_email_code pf now key ttl draw true db).1 in
    ground (
      arith,
      normalize_email_code-generate_email_code draw small,
      create_and_send-found pf now later key ttl draw db h i,
      judge_code-matching pf now later key ttl draw db.next_id x sent,
    )
