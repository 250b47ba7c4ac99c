-- ===== src/Auth/Limit.antt =====
-- How many attempts a code has, under requests that overlap: a request may hold a copy of a code
-- that it read before other requests wrote the row.
use agentschat.Prelude.{
  ℕ, ◌≡◌, refl, Bool, true, false, ◌&&◌, ◌||◌, inl, inr, List, [], ◌∷◌, some, arith, ltb, leb,
  is_some, Bool-cases, Option-cases,
}
use agentschat.Prelude.Table.{exists, find_by, delete}
use agentschat.Prelude.Every.{every, every-update, every-insert_row}
use agentschat.Prelude.Keeps.{
  Preorder, Keeps, Keeps-branch_on, Keeps-then, Keeps-throw, Keeps-pure, Keeps-branch,
  Keeps-or_refuse, Keeps-gets,
}
use agentschat.Text.{Text}
use agentschat.Auth.Store.{AuthEmailCodeEntity, AuthDb, Refusal, Platform, code_by_id, save_code}
use agentschat.Auth.Codes.{
  CodeKey, max_email_code_attempts, is_active_code, newest, find_active_email_code,
  record_invalid_code_attempt, consume_email_code, answer_guess, judge_code, save_codes,
  consume_each, invalidate_active_email_codes, insert_code, delete_code, new_code,
  create_and_send_email_code,
}

-- At most five attempts, and a code with five is consumed.
abbrev pub within_limit : AuthEmailCodeEntity → Bool
within_limit c =
    ltb c.attempt_count max_email_code_attempts
    || leb c.attempt_count max_email_code_attempts && is_some c.consumed_at

unfoldable pub all_within : AuthDb → Bool
unfolding every
all_within db = every within_limit db.email_codes

abbrev limiting : Preorder AuthDb
limiting = record {
  Le = λ db db'. all_within db ≡ true → all_within db' ≡ true;
  le_refl = λ db h. h;
  le_trans = λ a b c f g h. g (f h);
}

module _ {ℓ} {A : Type ℓ} (t : A → Bool) where
  every-delete : (p : A → Bool) (xs : List A) → every t xs ≡ true → every t (delete p xs) ≡ true
  unfolding every delete
  every-delete p [] h = refl
  every-delete p (x ∷ xs) h = ground (arith, every-delete p xs)

save_code-Keeps : (c : AuthEmailCodeEntity) → within_limit c ≡ true → Keeps limiting (save_code c)
unfolding save_code all_within
save_code-Keeps c w = record {
  at = λ db h. elim (Bool-cases (exists (code_by_id c.id) db.email_codes)) [
    | inl there ↦
        ground (
          arith,
          every-update within_limit (code_by_id c.id) (λ r. c) (λ a p q. w) db.email_codes h,
        )
    | inr gone ↦ ground (arith, every-insert_row within_limit db.email_codes c)
  ];
}

pub consume-Keeps :
    (now : ℕ) (c : AuthEmailCodeEntity)
    → within_limit c ≡ true
    → Keeps limiting (consume_email_code now c)
unfolding consume_email_code
consume-Keeps now c w =
    Keeps-branch_on limiting (is_some c.consumed_at) _ _ (λ e. Keeps-pure limiting tt)
      (λ e. save_code-Keeps _ (ground (arith, w)))

record_invalid-Keeps :
    (now : ℕ) (c : AuthEmailCodeEntity)
    → leb max_email_code_attempts c.attempt_count ≡ false
    → Keeps limiting (record_invalid_code_attempt now c)
unfolding record_invalid_code_attempt
record_invalid-Keeps now c few = save_code-Keeps _ (ground arith)

answer_guess-Keeps :
    (now : ℕ) (c : AuthEmailCodeEntity) (x : Refusal) (matches : Bool)
    → leb max_email_code_attempts c.attempt_count ≡ false
    → Keeps limiting (answer_guess now c x matches)
unfolding answer_guess
answer_guess-Keeps now c x matches few =
    Keeps-branch limiting matches _ _ (Keeps-pure limiting c)
      (Keeps-then limiting _ _ (record_invalid-Keeps now c few) (Keeps-throw limiting x))

pub judge_code-Keeps :
    (pf : Platform) (now : ℕ) (key : CodeKey) (submitted : Text) (x : Refusal)
    (c : AuthEmailCodeEntity)
    → within_limit c ≡ true
    → Keeps limiting (judge_code pf now key submitted x c)
unfolding judge_code
judge_code-Keeps pf now key submitted x c w =
    Keeps-branch_on limiting _ _ _
      (λ e. Keeps-then limiting _ _ (consume-Keeps now c w) (Keeps-throw limiting x))
      (λ few. Keeps-or_refuse limiting _ _ (λ matches. answer_guess-Keeps now c x matches few))

save_codes-Keeps :
    (cs : List AuthEmailCodeEntity) → every within_limit cs ≡ true → Keeps limiting (save_codes cs)
unfolding save_codes every
save_codes-Keeps [] h = Keeps-pure limiting tt
save_codes-Keeps (c ∷ cs) h =
    Keeps-then limiting _ _ (save_code-Keeps c (ground arith)) (save_codes-Keeps cs (ground arith))

-- What is read of such a table and then consumed.
consume_each-within :
    (now : ℕ) (p : AuthEmailCodeEntity → Bool) (cs : List AuthEmailCodeEntity)
    → every within_limit cs ≡ true
    → every within_limit (consume_each now (find_by p cs)) ≡ true
unfolding every find_by consume_each
consume_each-within now p [] h = refl
consume_each-within now p (c ∷ cs) h = ground (arith, consume_each-within now p cs)

invalidate-Keeps :
    (now : ℕ) (key : CodeKey) → Keeps limiting (invalidate_active_email_codes now key)
unfolding invalidate_active_email_codes all_within
invalidate-Keeps now key = record {
  at = λ db h.
      (save_codes-Keeps (consume_each now (find_by (is_active_code now key) db.email_codes))
          (consume_each-within now (is_active_code now key) db.email_codes h)).at
        db h;
}

insert_code-Keeps :
    (c : AuthEmailCodeEntity) → within_limit c ≡ true → Keeps limiting (insert_code c)
unfolding insert_code all_within
insert_code-Keeps c w = record {
  at = λ db h. ground (arith, every-insert_row within_limit db.email_codes c, h, w);
}

delete_code-Keeps : (i : ℕ) → Keeps limiting (delete_code i)
unfolding delete_code all_within
delete_code-Keeps i = record {
  at = λ db h. every-delete within_limit (code_by_id i) db.email_codes h;
}

pub create_and_send-Keeps :
    (pf : Platform) (now : ℕ) (key : CodeKey) (ttl draw : ℕ) (delivered : Bool)
    → Keeps limiting (create_and_send_email_code pf now key ttl draw delivered)
unfolding create_and_send_email_code
create_and_send-Keeps pf now key ttl draw delivered =
    Keeps-then limiting _ _ (invalidate-Keeps now key) (
      Keeps-gets limiting _ _ (λ i.
        Keeps-then limiting _ _ (insert_code-Keeps (new_code pf now key ttl draw i) refl) (
          Keeps-branch limiting delivered _ _ (Keeps-pure limiting tt) (
            Keeps-then limiting _ _ (delete_code-Keeps i)
              (Keeps-throw limiting Refusal.delivery_failed)))))

newest-within :
    (cs : List AuthEmailCodeEntity) (c : AuthEmailCodeEntity)
    → every within_limit cs ≡ true
    → newest cs ≡ some c
    → within_limit c ≡ true
unfolding newest every
newest-within [] c h e = ground arith
newest-within (d ∷ cs) c h e = elim (Option-cases (newest cs)) [
  | inl none_left ↦ ground arith
  | inr (b, f) ↦ ground (arith, newest-within cs b)
]

every-find_by_kept :
    (p : AuthEmailCodeEntity → Bool) (cs : List AuthEmailCodeEntity)
    → every within_limit cs ≡ true
    → every within_limit (find_by p cs) ≡ true
unfolding every find_by
every-find_by_kept p [] h = refl
every-find_by_kept p (c ∷ cs) h = ground (arith, every-find_by_kept p cs)

pub find_active-within :
    (now : ℕ) (key : CodeKey) (db : AuthDb) (c : AuthEmailCodeEntity)
    → all_within db ≡ true
    → find_active_email_code now key db ≡ some c
    → within_limit c ≡ true
unfolding find_active_email_code all_within
find_active-within now key db c h e =
    newest-within _ c (every-find_by_kept (is_active_code now key) db.email_codes h) e
