-- ===== src/Auth/Guesses.antt =====
-- Guesses at e-mail codes, one after the other: how often a code is compared with a wrong one.
use agentschat.Prelude.{
  ℕ, ◌+◌, ◌≤◌, ◌≡◌, Bool, true, false, not, ◌&&◌, inl, inr, List, [], ◌∷◌, Option, some, arith, ltb,
  ◌==◌, if◌then◌else◌, Option-cases,
}
use agentschat.Prelude.Table.{find_one}
use agentschat.Prelude.Every.{every-find_one}
use agentschat.Prelude.Action.{Result, ok, err, Result-cases}
use agentschat.Text.{Text}
use agentschat.Auth.Store.{AuthEmailCodeEntity, AuthDb, Refusal, Platform, code_by_id}
use agentschat.Auth.Normalize.{normalize_email_code, hash_email_code, constant_time_matches}
use agentschat.Auth.Codes.{
  CodeKey, max_email_code_attempts, find_active_email_code, consume_email_code, consumed,
  with_invalid_attempt, record_invalid_code_attempt, answer_guess, judge_code,
  require_valid_email_code,
}
use agentschat.Auth.Limit.{within_limit, all_within, judge_code-Keeps, find_active-within}
use agentschat.Auth.Saved.{
  has_distinct_ids, attempts, find_one-save_code, save_code-has_distinct_ids, find_active_found,
}

abbrev is_miss : Result Refusal Bool → Bool
is_miss (ok b) = not b
is_miss (err x) = false

-- A code that still has attempts left is compared with a text, and does not match.
unfoldable pub misses : Platform → CodeKey → Text → AuthEmailCodeEntity → Bool
misses pf key submitted c =
    ltb c.attempt_count max_email_code_attempts
    && is_miss
        (constant_time_matches c.code_hash (hash_email_code pf key.email key.purpose submitted))

-- A guess at a code whose row is as it was read.
judge_code-attempts :
    (pf : Platform) (now : ℕ) (key : CodeKey) (submitted : Text) (x : Refusal)
    (c : AuthEmailCodeEntity) (i : ℕ) (db : AuthDb)
    → find_one (code_by_id c.id) db.email_codes ≡ some c
    → attempts i (judge_code pf now key submitted x c db).1
      ≡ attempts i db + (if c.id == i && misses pf key submitted c then 1 else 0)
unfolding judge_code consume_email_code answer_guess record_invalid_code_attempt misses
judge_code-attempts pf now key submitted x c i db found =
    elim (Result-cases
      (constant_time_matches c.code_hash (hash_email_code pf key.email key.purpose submitted))) [
        | inl (b, e) ↦ ground (
          arith,
          find_one-save_code i (consumed now c) db,
          find_one-save_code i (with_invalid_attempt now c) db,
        )
        | inr (y, e) ↦ ground (arith, find_one-save_code i (consumed now c) db)
      ]

judge_code-has_distinct_ids :
    (pf : Platform) (now : ℕ) (key : CodeKey) (submitted : Text) (x : Refusal)
    (c : AuthEmailCodeEntity) (db : AuthDb)
    → has_distinct_ids db ≡ true
    → has_distinct_ids (judge_code pf now key submitted x c db).1 ≡ true
unfolding judge_code consume_email_code answer_guess record_invalid_code_attempt
judge_code-has_distinct_ids pf now key submitted x c db h =
    elim (Result-cases
      (constant_time_matches c.code_hash (hash_email_code pf key.email key.purpose submitted))) [
        | inl (b, e) ↦ ground (
          arith,
          save_code-has_distinct_ids (consumed now c) db h,
          save_code-has_distinct_ids (with_invalid_attempt now c) db h,
        )
        | inr (y, e) ↦ ground (arith, save_code-has_distinct_ids (consumed now c) db h)
      ]

-- A request with a code, and what it is refused with.
pub record Guess : Type 0 where
  pub now : ℕ
  pub key : CodeKey
  pub code : Text
  pub refusal : Refusal

abbrev guess : Platform → Guess → AuthDb → AuthDb
guess pf g db = (require_valid_email_code pf g.now g.key g.code g.refusal db).1

abbrev is_wrong_at :
    Platform → CodeKey → ℕ → Result Refusal Text → Option AuthEmailCodeEntity → Bool
is_wrong_at pf key i (ok submitted) (some c) = c.id == i && misses pf key submitted c
is_wrong_at pf key i submitted found = false

-- The guess is compared with code `i` and does not match it.
abbrev is_wrong_guess : Platform → ℕ → Guess → AuthDb → Bool
is_wrong_guess pf i g db =
    is_wrong_at pf g.key i (normalize_email_code g.code) (find_active_email_code g.now g.key db)

guess_lem :
    (pf : Platform) (i : ℕ) (g : Guess) (db : AuthDb)
    → has_distinct_ids db ≡ true
    → (attempts i (guess pf g db) ≡ attempts i db + (if is_wrong_guess pf i g db then 1 else 0))
      × (has_distinct_ids (guess pf g db) ≡ true)
unfolding require_valid_email_code
guess_lem pf i g db h = elim (Result-cases (normalize_email_code g.code)) [
  | inr (x, e) ↦ ground (arith, h)
  | inl (submitted, e) ↦ elim (Option-cases (find_active_email_code g.now g.key db)) [
    | inl n ↦ ground (arith, h)
    | inr (c, f) ↦
        let found = find_active_found g.now g.key db c h f in
        ground (
          arith,
          judge_code-attempts pf g.now g.key submitted g.refusal c i db found.0,
          judge_code-has_distinct_ids pf g.now g.key submitted g.refusal c db h,
        )
  ]
]

module _ (pf : Platform) where
  unfoldable pub guess_all : List Guess → AuthDb → AuthDb
  guess_all [] db = db
  guess_all (g ∷ gs) db = guess_all gs (guess pf g db)

  -- How many of the guesses are compared with code `i` and do not match it.
  unfoldable pub wrong_guesses : ℕ → List Guess → AuthDb → ℕ
  wrong_guesses i [] db = 0
  wrong_guesses i (g ∷ gs) db =
      let rest = wrong_guesses i gs (guess pf g db) in
      (if is_wrong_guess pf i g db then 1 else 0) + rest

  guess_all-attempts :
      (i : ℕ) (gs : List Guess) (db : AuthDb)
      → has_distinct_ids db ≡ true
      → attempts i (guess_all gs db) ≡ attempts i db + wrong_guesses i gs db
  unfolding guess_all wrong_guesses
  guess_all-attempts i [] db h = ground arith
  guess_all-attempts i (g ∷ gs) db h =
      let one = guess_lem pf i g db h in
      ground (arith, one.0, guess_all-attempts i gs (guess pf g db) one.1)

  guess-all_within :
      (g : Guess) (db : AuthDb) → all_within db ≡ true → all_within (guess pf g db) ≡ true
  unfolding require_valid_email_code
  guess-all_within g db h = elim (Result-cases (normalize_email_code g.code)) [
    | inr (x, e) ↦ ground (arith, h)
    | inl (submitted, e) ↦ elim (Option-cases (find_active_email_code g.now g.key db)) [
      | inl n ↦ ground (arith, h)
      | inr (c, f) ↦
          let w = find_active-within g.now g.key db c h f in
          ground (arith, (judge_code-Keeps pf g.now g.key submitted g.refusal c w).at db h)
    ]
  ]

  guess_all-all_within :
      (gs : List Guess) (db : AuthDb) → all_within db ≡ true → all_within (guess_all gs db) ≡ true
  unfolding guess_all
  guess_all-all_within [] db h = h
  guess_all-all_within (g ∷ gs) db h =
      guess_all-all_within gs (guess pf g db) (guess-all_within g db h)

  at_most_five :
      (i : ℕ) (db : AuthDb) → all_within db ≡ true → attempts i db ≤ max_email_code_attempts
  unfolding all_within
  at_most_five i db h = elim (Option-cases (find_one (code_by_id i) db.email_codes)) [
    | inl n ↦ ground arith
    | inr (c, e) ↦ ground (arith, every-find_one within_limit (code_by_id i) db.email_codes c h e)
  ]

  -- If ids are distinct and every code has at most five attempts in its row, and is consumed if it has
  -- five, then of guesses that follow one another at most five, less the attempts that the code has
  -- already, are compared with it and do not match it.
  pub wrong_guesses_at_most_five :
      (i : ℕ) (gs : List Guess) (db : AuthDb)
      → has_distinct_ids db ≡ true
      → all_within db ≡ true
      → wrong_guesses i gs db + attempts i db ≤ 5
  wrong_guesses_at_most_five i gs db h w = ground (
    arith,
    guess_all-attempts i gs db h,
    at_most_five i (guess_all gs db) (guess_all-all_within gs db w),
  )
