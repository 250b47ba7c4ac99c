-- ===== src/Auth/Overlap.antt =====
-- Guesses that overlap: each writes back the copy that it read.
use agentschat.Prelude.{
  ℕ, suc, ◌+◌, ◌<◌, ◌≡◌, refl, Bool, true, false, ◌&&◌, inl, inr, List, [], ◌∷◌, some, arith, ◌==◌,
  is_some,
}
use agentschat.Prelude.Table.{find_one, exists, update}
use agentschat.Prelude.Rows.{find_one-exists_of}
use agentschat.Prelude.Every.{every}
use agentschat.Prelude.Action.{Result-cases}
use agentschat.Text.{Text}
use agentschat.Auth.Store.{AuthEmailCodeEntity, AuthDb, Refusal, Platform, code_by_id, save_code}
use agentschat.Auth.Normalize.{hash_email_code, constant_time_matches}
use agentschat.Auth.Codes.{
  CodeKey, max_email_code_attempts, is_active_code, consume_email_code, consumed,
  with_invalid_attempt, record_invalid_code_attempt, answer_guess, judge_code,
}
use agentschat.Auth.Saved.{attempts, find_one-save_code}
use agentschat.Auth.Guesses.{misses}

module _ (pf : Platform) (key : CodeKey) (x : Refusal) (c : AuthEmailCodeEntity) where
  -- What a guess that misses writes.
  judge_code-misses :
      (now : ℕ) (submitted : Text) (db : AuthDb)
      → misses pf key submitted c ≡ true
      → (judge_code pf now key submitted x c db).1 ≡ (save_code (with_invalid_attempt now c) db).1
  unfolding judge_code misses answer_guess record_invalid_code_attempt
  judge_code-misses now submitted db h =
      elim (Result-cases
        (constant_time_matches c.code_hash (hash_email_code pf key.email key.purpose submitted))) [
          | inl (b, e) ↦ ground arith
          | inr (y, e) ↦ ground arith
        ]

  -- Guesses that all read the code before any of them wrote it.
  unfoldable pub judge_each : List (ℕ × Text) → AuthDb → AuthDb
  judge_each [] db = db
  judge_each ((now, submitted) ∷ gs) db = judge_each gs (judge_code pf now key submitted x c db).1

  abbrev pub misses_all : List (ℕ × Text) → Bool
  misses_all gs = every (λ g. misses pf key g.1 c) gs

  judge_each-attempts :
      (gs : List (ℕ × Text)) (db : AuthDb)
      → misses_all gs ≡ true
      → attempts c.id db ≡ suc c.attempt_count
      → attempts c.id (judge_each gs db) ≡ suc c.attempt_count
  unfolding judge_each every
  judge_each-attempts [] db h e = e
  judge_each-attempts ((now, submitted) ∷ gs) db h e =
      judge_each-attempts gs (judge_code pf now key submitted x c db).1 (ground arith) (
        ground (
          arith,
          judge_code-misses now submitted db,
          find_one-save_code c.id (with_invalid_attempt now c) db,
        ))

  -- However many guesses that miss a code overlap, it has one attempt more in its row.
  pub overlapping_guesses_count_once :
      (now : ℕ) (submitted : Text) (gs : List (ℕ × Text)) (db : AuthDb)
      → misses_all ((now, submitted) ∷ gs) ≡ true
      → attempts c.id (judge_each ((now, submitted) ∷ gs) db) ≡ suc c.attempt_count
  unfolding judge_each every
  overlapping_guesses_count_once now submitted gs db h =
      judge_each-attempts gs (judge_code pf now key submitted x c db).1 (ground arith) (
        ground (
          arith,
          judge_code-misses now submitted db,
          find_one-save_code c.id (with_invalid_attempt now c) db,
        ))

-- Code `i` is in the table and active.
unfoldable pub is_live_code : ℕ → CodeKey → ℕ → AuthDb → Bool
unfolding exists
is_live_code t key i db = exists (λ r. r.id == i && is_active_code t key r) db.email_codes

no_live_rows :
    (t : ℕ) (key : CodeKey) (c : AuthEmailCodeEntity) (cs : List AuthEmailCodeEntity)
    → is_some c.consumed_at ≡ true
    → exists (λ r. r.id == c.id && is_active_code t key r) (update (code_by_id c.id) (λ r. c) cs)
      ≡ false
unfolding exists update
no_live_rows t key c [] h = refl
no_live_rows t key c (d ∷ ds) h = ground (arith, no_live_rows t key c ds h)

consume-not_live :
    (t used : ℕ) (key : CodeKey) (c : AuthEmailCodeEntity) (db : AuthDb)
    → find_one (code_by_id c.id) db.email_codes ≡ some c
    → is_active_code t key c ≡ true
    → is_live_code t key c.id (consume_email_code used c db).1 ≡ false
unfolding is_live_code consume_email_code save_code
consume-not_live t used key c db found active = ground (
  arith,
  no_live_rows t key (consumed used c) db.email_codes refl,
  find_one-exists_of (code_by_id c.id) (code_by_id c.id) db.email_codes c found (ground arith),
)

written-live :
    (pf : Platform) (t now : ℕ) (key : CodeKey) (submitted : Text) (x : Refusal)
    (c : AuthEmailCodeEntity) (db : AuthDb)
    → is_active_code t key c ≡ true
    → misses pf key submitted c ≡ true
    → c.attempt_count + 1 < max_email_code_attempts
    → is_live_code t key c.id (judge_code pf now key submitted x c db).1 ≡ true
unfolding is_live_code
written-live pf t now key submitted x c db active wrong few =
    rw (judge_code-misses pf key x c now submitted db wrong) (
      find_one-exists_of (code_by_id c.id) (λ r. r.id == c.id && is_active_code t key r)
        (save_code (with_invalid_attempt now c) db).1.email_codes (with_invalid_attempt now c)
        (ground (arith, find_one-save_code c.id (with_invalid_attempt now c) db)) (ground arith))

-- A code that is in the table and active is not active once it is consumed; a guess that read it
-- before and misses it, with an attempt left after it, makes it active again.
pub stale_guess_revives_code :
    (pf : Platform) (t used now : ℕ) (key : CodeKey) (submitted : Text) (x : Refusal)
    (c : AuthEmailCodeEntity) (db : AuthDb)
    → find_one (code_by_id c.id) db.email_codes ≡ some c
    → is_active_code t key c ≡ true
    → misses pf key submitted c ≡ true
    → c.attempt_count + 1 < max_email_code_attempts
    → let after_use = (consume_email_code used c db).1 in
      (is_live_code t key c.id after_use ≡ false)
      × (is_live_code t key c.id (judge_code pf now key submitted x c after_use).1 ≡ true)
stale_guess_revives_code pf t used now key submitted x c db found active wrong few = (
  consume-not_live t used key c db found active,
  written-live pf t now key submitted x c (consume_email_code used c db).1 active wrong few,
)
