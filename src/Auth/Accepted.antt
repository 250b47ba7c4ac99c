-- ===== src/Auth/Accepted.antt =====
-- Which guesses are accepted, and that a code that was used is not accepted again.
use agentschat.Prelude.{
  ℕ, ◌≤◌, ◌<◌, ◌≡◌, refl, Bool, true, false, inl, inr, List, [], ◌∷◌, none, some, arith, leb,
  Option-cases,
}
use agentschat.Prelude.Table.{find_one, find_by}
use agentschat.Prelude.Every.{every}
use agentschat.Prelude.Action.{ok, Result-cases}
use agentschat.Text.{Text, same_text}
use agentschat.Auth.Store.{AuthEmailCodeEntity, AuthDb, Refusal, Platform, code_by_id, same_purpose}
use agentschat.Auth.Normalize.{normalize_email_code, hash_email_code, constant_time_matches}
use agentschat.Auth.Codes.{
  CodeKey, max_email_code_attempts, is_active_code, newest, find_active_email_code, answer_guess,
  judge_code, require_valid_email_code,
}
use agentschat.Auth.Saved.{has_distinct_ids, find_active_found}

abbrev no_newer : AuthEmailCodeEntity → List AuthEmailCodeEntity → Bool
no_newer c cs = every (λ r. leb r.created_at c.created_at) cs

-- The code that a guess was accepted for, and the digits of the guess.
pub record IsAccepted (pf : Platform) (now : ℕ) (key : CodeKey) (code : Text) (db : AuthDb)
    (c : AuthEmailCodeEntity) (submitted : Text) : Type 0 where
  pub digits : normalize_email_code code ≡ ok submitted
  pub in_table : find_one (code_by_id c.id) db.email_codes ≡ some c
  pub for_address : same_text c.email key.email ≡ true
  pub for_purpose : same_purpose c.purpose key.purpose ≡ true
  pub for_user : c.user_id ≡ some key.user_id
  pub unconsumed : c.consumed_at ≡ none
  pub unexpired : now < c.expires_at
  pub newest_active : no_newer c (find_by (is_active_code now key) db.email_codes) ≡ true
  pub attempts_left : c.attempt_count < max_email_code_attempts
  pub same_hash :
      constant_time_matches c.code_hash (hash_email_code pf key.email key.purpose submitted)
      ≡ ok true

pub IsAccepted-active :
    (pf : Platform) (now : ℕ) (key : CodeKey) (code : Text) (db : AuthDb) (c : AuthEmailCodeEntity)
    (submitted : Text)
    → IsAccepted pf now key code db c submitted
    → is_active_code now key c ≡ true
IsAccepted-active pf now key code db c submitted h =
    ground (arith, h.for_address, h.for_purpose, h.for_user, h.unconsumed, h.unexpired)

no_newer_trans :
    (c d : AuthEmailCodeEntity) (cs : List AuthEmailCodeEntity)
    → c.created_at ≤ d.created_at
    → no_newer c cs ≡ true
    → no_newer d cs ≡ true
unfolding every
no_newer_trans c d [] l h = refl
no_newer_trans c d (b ∷ bs) l h = ground (arith, no_newer_trans c d bs l)

newest-no_newer :
    (cs : List AuthEmailCodeEntity) (c : AuthEmailCodeEntity)
    → newest cs ≡ some c
    → no_newer c cs ≡ true
unfolding newest every
newest-no_newer [] c e = refl
newest-no_newer (d ∷ ds) c e = elim (Option-cases (newest ds)) [
  | inl n ↦ ground (arith, newest_none ds n)
  | inr (b, f) ↦ ground (arith, newest-no_newer ds b f, no_newer_trans b d ds)
]
  where
    newest_none : (xs : List AuthEmailCodeEntity) → newest xs ≡ none → xs ≡ []
    newest_none [] h = refl
    newest_none (x ∷ xs) h = absurd (ground arith)

newest_lem :
    (now : ℕ) (key : CodeKey) (db : AuthDb) (c : AuthEmailCodeEntity)
    → find_active_email_code now key db ≡ some c
    → no_newer c (find_by (is_active_code now key) db.email_codes) ≡ true
unfolding find_active_email_code
newest_lem now key db c e = newest-no_newer _ c e

judge_code-accepts :
    (pf : Platform) (now : ℕ) (key : CodeKey) (submitted : Text) (x : Refusal)
    (c d : AuthEmailCodeEntity) (db : AuthDb)
    → (judge_code pf now key submitted x c db).0 ≡ ok d
    → (c ≡ d)
      × (c.attempt_count < max_email_code_attempts)
      × (constant_time_matches c.code_hash (hash_email_code pf key.email key.purpose submitted)
          ≡ ok true)
      × ((judge_code pf now key submitted x c db).1 ≡ db)
unfolding judge_code answer_guess
judge_code-accepts pf now key submitted x c d db h =
    elim (Result-cases
      (constant_time_matches c.code_hash (hash_email_code pf key.email key.purpose submitted))) [
        | inl (true, e) ↦ ground arith
        | inl (false, e) ↦ absurd (ground arith)
        | inr (y, e) ↦ absurd (ground arith)
      ]

-- A guess that is accepted changes nothing.
pub require_valid_email_code-same :
    (pf : Platform) (now : ℕ) (key : CodeKey) (code : Text) (x : Refusal) (db : AuthDb)
    (c : AuthEmailCodeEntity)
    → (require_valid_email_code pf now key code x db).0 ≡ ok c
    → (require_valid_email_code pf now key code x db).1 ≡ db
unfolding require_valid_email_code
require_valid_email_code-same pf now key code x db c h =
    elim (Result-cases (normalize_email_code code)) [
      | inr (y, e) ↦ absurd (ground arith)
      | inl (submitted, e) ↦ elim (Option-cases (find_active_email_code now key db)) [
        | inl n ↦ absurd (ground arith)
        | inr (d, f) ↦
            ground (arith, judge_code-accepts pf now key submitted x d c db (ground arith))
      ]
    ]

-- If ids are distinct, a guess is accepted only for the newest active code of its user, address and
-- purpose, which is in the table with attempts left, and whose hash is that of the guess; it changes
-- nothing.
pub require_valid_email_code-IsAccepted :
    (pf : Platform) (now : ℕ) (key : CodeKey) (code : Text) (x : Refusal) (db : AuthDb)
    (c : AuthEmailCodeEntity)
    → has_distinct_ids db ≡ true
    → (require_valid_email_code pf now key code x db).0 ≡ ok c
    → (submitted : Text) × IsAccepted pf now key code db c submitted
      × ((require_valid_email_code pf now key code x db).1 ≡ db)
unfolding require_valid_email_code
require_valid_email_code-IsAccepted pf now key code x db c ids h =
    elim (Result-cases (normalize_email_code code)) [
      | inr (y, e) ↦ absurd (ground arith)
      | inl (submitted, e) ↦ elim (Option-cases (find_active_email_code now key db)) [
        | inl n ↦ absurd (ground arith)
        | inr (d, f) ↦
            let found = find_active_found now key db d ids f in
            let judged = judge_code-accepts pf now key submitted x d c db (ground arith) in
            let newest_one = newest_lem now key db d f in
            (
              submitted,
              record {
                digits = e;
                in_table = ground (arith, found, judged.0);
                for_address = ground (arith, found, judged.0);
                for_purpose = ground (arith, found, judged.0);
                for_user = ground (arith, found, judged.0);
                unconsumed = ground (arith, found, judged.0);
                unexpired = ground (arith, found, judged.0);
                newest_active = ground (arith, newest_one, judged.0);
                attempts_left = ground (arith, judged);
                same_hash = ground (arith, judged);
              },
              ground (arith, judged),
            )
      ]
    ]
