-- ===== src/Auth/Codes.antt =====
-- auth.service.ts: the codes sent by e-mail. Reading a code and writing the copy that was read are
-- separate calls, so the copy may be out of date when it is written.
use Prim.Native.Nat.{◌/◌}
use agentschat.Prelude.{
  ℕ, suc, ◌+◌, ◌*◌, ◌-◌, Bool, not, ◌&&◌, List, [], ◌∷◌, Option, none, some, ltb, leb, is_some,
  holds, if◌then◌else◌,
}
use agentschat.Prelude.Table.{find_by, delete, insert_row}
use agentschat.Prelude.Action.{pure, throw, gets, modify, or_refuse, or_throw, ◌>>=◌, ◌>>◌}
use agentschat.Text.{Text, same_text}
use agentschat.Auth.Store.{
  AuthEmailCodePurpose, AuthEmailCodeEntity, AuthDb, Refusal, M, Platform, same_purpose, code_by_id,
  save_code,
}
use agentschat.Auth.Normalize.{
  normalize_email_code, hash_email_code, generate_email_code, constant_time_matches,
}

abbrev pub max_email_code_attempts : ℕ
max_email_code_attempts = 5

-- Whose code it is, and for what.
pub record CodeKey : Type 0 where
  pub email : Text
  pub purpose : AuthEmailCodePurpose
  pub user_id : ℕ

-- `buildActiveEmailCodeWhere`
abbrev pub is_active_code : ℕ → CodeKey → AuthEmailCodeEntity → Bool
is_active_code now key c =
    same_text c.email key.email
    && same_purpose c.purpose key.purpose
    && holds c.user_id key.user_id
    && not (is_some c.consumed_at)
    && ltb now c.expires_at

abbrev pub later_of : AuthEmailCodeEntity → Option AuthEmailCodeEntity → AuthEmailCodeEntity
later_of c none = c
later_of c (some d) = if ltb c.created_at d.created_at then d else c

-- The row created last; of equally old ones, which the query leaves open, the first.
unfoldable pub newest : List AuthEmailCodeEntity → Option AuthEmailCodeEntity
newest [] = none
newest (c ∷ cs) = some (later_of c (newest cs))

unfoldable pub find_active_email_code : ℕ → CodeKey → AuthDb → Option AuthEmailCodeEntity
find_active_email_code now key db = newest (find_by (is_active_code now key) db.email_codes)

abbrev pub consumed : ℕ → AuthEmailCodeEntity → AuthEmailCodeEntity
consumed now c = record c { consumed_at = some now }

unfoldable pub consume_email_code : ℕ → AuthEmailCodeEntity → M (Unit {0})
consume_email_code now c = if is_some c.consumed_at then pure tt else save_code (consumed now c)

abbrev pub with_invalid_attempt : ℕ → AuthEmailCodeEntity → AuthEmailCodeEntity
with_invalid_attempt now c = record c {
  attempt_count = c.attempt_count + 1;
  consumed_at =
      if leb max_email_code_attempts (c.attempt_count + 1) then some now else c.consumed_at;
}

unfoldable pub record_invalid_code_attempt : ℕ → AuthEmailCodeEntity → M (Unit {0})
record_invalid_code_attempt now c = save_code (with_invalid_attempt now c)

unfoldable pub answer_guess : ℕ → AuthEmailCodeEntity → Refusal → Bool → M AuthEmailCodeEntity
answer_guess now c refusal matches =
    if matches then pure c else (record_invalid_code_attempt now c >> throw refusal)

-- `requireValidEmailCode` from the moment the code was found.
unfoldable pub judge_code :
    Platform → ℕ → CodeKey → Text → Refusal → AuthEmailCodeEntity → M AuthEmailCodeEntity
judge_code pf now key submitted refusal c =
    if leb max_email_code_attempts c.attempt_count
    then (consume_email_code now c >> throw refusal)
    else (or_refuse
          (constant_time_matches c.code_hash (hash_email_code pf key.email key.purpose submitted))
        >>= answer_guess now c refusal)

unfoldable pub require_valid_email_code :
    Platform → ℕ → CodeKey → Text → Refusal → M AuthEmailCodeEntity
require_valid_email_code pf now key code refusal = do
  submitted ← or_refuse (normalize_email_code code)
  found ← gets (find_active_email_code now key)
  c ← or_throw found refusal
  judge_code pf now key submitted refusal c

-- `Math.ceil` of the rest of the cool-down in seconds; 0 if it is over.
unfoldable pub cooldown_of : ℕ → ℕ → Option AuthEmailCodeEntity → ℕ
cooldown_of cooldown_seconds now none = 0
cooldown_of cooldown_seconds now (some c) =
    (c.created_at + cooldown_seconds * 1000 - now + 999) / 1000

unfoldable pub read_code_cooldown_remaining_seconds : ℕ → ℕ → CodeKey → AuthDb → ℕ
read_code_cooldown_remaining_seconds cooldown_seconds now key db =
    cooldown_of cooldown_seconds now (find_active_email_code now key db)

unfoldable pub save_codes : List AuthEmailCodeEntity → M (Unit {0})
save_codes [] = pure tt
save_codes (c ∷ cs) = do save_code c; save_codes cs

unfoldable pub consume_each : ℕ → List AuthEmailCodeEntity → List AuthEmailCodeEntity
consume_each now [] = []
consume_each now (c ∷ cs) = consumed now c ∷ consume_each now cs

unfoldable pub invalidate_active_email_codes : ℕ → CodeKey → M (Unit {0})
invalidate_active_email_codes now key = do
  active ← gets (λ db. find_by (is_active_code now key) db.email_codes)
  save_codes (consume_each now active)

abbrev pub new_code : Platform → ℕ → CodeKey → ℕ → ℕ → ℕ → AuthEmailCodeEntity
new_code pf now key ttl_seconds draw i = record {
  id = i;
  created_at = now;
  user_id = some key.user_id;
  email = key.email;
  purpose = key.purpose;
  code_hash = hash_email_code pf key.email key.purpose (generate_email_code draw);
  expires_at = now + ttl_seconds * 1000;
  consumed_at = none;
  attempt_count = 0;
}

unfoldable pub insert_code : AuthEmailCodeEntity → M (Unit {0})
insert_code c =
    modify λ db. record db { email_codes = insert_row db.email_codes c; next_id = suc db.next_id }

unfoldable pub delete_code : ℕ → M (Unit {0})
delete_code i = modify λ db. record db { email_codes = delete (code_by_id i) db.email_codes }

-- `delivered` tells whether the mail was sent.
unfoldable pub create_and_send_email_code : Platform → ℕ → CodeKey → ℕ → ℕ → Bool → M (Unit {0})
create_and_send_email_code pf now key ttl_seconds draw delivered = do
  invalidate_active_email_codes now key
  i ← gets (λ db. db.next_id)
  insert_code (new_code pf now key ttl_seconds draw i)
  if delivered then pure tt else (delete_code i >> throw Refusal.delivery_failed)
