-- ===== src/Auth/Normalize.antt =====
-- auth.service.ts: how request texts are normalised, and the texts of codes and passwords.
use Prim.Native.Nat.{◌/◌, ◌%◌}
use agentschat.Prelude.{
  ℕ, zero, suc, ◌+◌, ◌-◌, Bool, false, not, ◌&&◌, ◌||◌, List, [], ◌∷◌, ◌++◌, ltb, leb, ◌==◌,
  if◌then◌else◌, length,
}
use agentschat.Prelude.Every.{every}
use agentschat.Prelude.Table.{find_by}
use agentschat.Prelude.Action.{Result, ok, err}
use agentschat.Text.{Text, is_space, trim, codes, same_text}
use agentschat.Text.Split.{split, utf16_length, utf8_length}
use agentschat.Auth.Store.{AuthEmailCodePurpose, Refusal, Platform}

abbrev non_empty_or : Text → Refusal → Result Refusal Text
non_empty_or [] e = err e
non_empty_or (c ∷ s) e = ok (c ∷ s)

unfoldable pub normalize_display_name : Text → Result Refusal Text
unfolding trim
normalize_display_name s = non_empty_or (trim s) Refusal.display_name_required

abbrev pub is_digit : ℕ → Bool
is_digit c = leb b'0' c && leb c b'9'

-- `[a-z0-9_]`
abbrev pub is_username_code : ℕ → Bool
is_username_code c = leb b'a' c && leb c b'z' || is_digit c || c == b'_'

abbrev drop_at : Text → Text
drop_at [] = []
drop_at (c ∷ s) = if c == b'@' then s else c ∷ s

abbrev pub long_enough : Text → Bool → Result Refusal Text
long_enough [] requires_length = err Refusal.password_required
long_enough (c ∷ s) requires_length =
    if requires_length && ltb (utf16_length (c ∷ s)) 8
    then err Refusal.password_too_short
    else ok (c ∷ s)

unfoldable pub normalize_password : Text → Bool → Result Refusal Text
unfolding trim utf16_length
normalize_password s requires_length = long_enough (trim s) requires_length

abbrev pub is_code : Text → Bool
is_code s = length s == 6 && every is_digit s

unfoldable pub normalize_email_code : Text → Result Refusal Text
unfolding trim is_space find_by every
normalize_email_code s =
    let normalized = find_by (λ c. not (is_space c)) (trim s) in
    if is_code normalized then ok normalized else err Refusal.code_format

module _ (pf : Platform) where
  unfoldable pub normalize_email : Text → Result Refusal Text
  unfolding trim
  normalize_email s = non_empty_or (pf.to_lower_case (trim s)) Refusal.email_required

  unfoldable pub normalize_username_candidate : Text → Text
  unfolding trim
  normalize_username_candidate s = drop_at (pf.to_lower_case (trim s))

abbrev checked_username : Text → Result Refusal Text
checked_username [] = err Refusal.username_required
checked_username (c ∷ s) =
    if ltb (utf16_length (c ∷ s)) 3 || ltb 24 (utf16_length (c ∷ s))
    then err Refusal.username_length
    else if not (every is_username_code (c ∷ s))
    then err Refusal.username_characters
    else ok (c ∷ s)

unfoldable pub normalize_username : Platform → Text → Result Refusal Text
unfolding utf16_length every
normalize_username pf s = checked_username (normalize_username_candidate pf s)

-- The decimal digits of a number, before those that follow.
unfoldable pub decimal : ℕ → ℕ → Text → Text
decimal zero n rest = rest
decimal (suc f) n rest =
    let more = decimal f (n / 10) ((b'0' + n % 10) ∷ rest) in
    if ltb n 10 then (b'0' + n) ∷ rest else more

unfoldable pub pad : ℕ → Text → Text
pad zero s = s
pad (suc n) s = b'0' ∷ pad n s

-- `padStart(6, '0')`
unfoldable pub pad_start : Text → Text
unfolding pad
pad_start s = pad (6 - length s) s

-- The code for a number that was drawn below a million.
unfoldable pub generate_email_code : ℕ → Text
generate_email_code draw = pad_start (decimal 6 draw [])

abbrev purpose_text : AuthEmailCodePurpose → Text
purpose_text AuthEmailCodePurpose.email_verification = codes "email_verification"
purpose_text AuthEmailCodePurpose.password_reset = codes "password_reset"

unfoldable pub hash_email_code : Platform → Text → AuthEmailCodePurpose → Text → Text
hash_email_code pf email purpose code =
    pf.hmac (purpose_text purpose ++ (b':' ∷ (email ++ (b':' ∷ code))))

-- `timingSafeEqual` throws where the texts take different numbers of bytes.
unfoldable pub constant_time_matches : Text → Text → Result Refusal Bool
unfolding utf16_length utf8_length
constant_time_matches actual expected =
    if not (utf16_length actual == utf16_length expected)
    then ok false
    else if not (utf8_length actual == utf8_length expected)
    then err Refusal.different_byte_length
    else ok (same_text actual expected)

-- `salt` is the hexadecimal text of sixteen random bytes.
unfoldable pub hash_password : Platform → Text → Text → Text
hash_password pf salt password = salt ++ (b':' ∷ pf.scrypt password salt)

abbrev pub matches_parts : Platform → Text → List Text → Result Refusal Bool
matches_parts pf password [] = ok false
matches_parts pf password (salt ∷ []) = ok false
matches_parts pf password ([] ∷ expected ∷ rest) = ok false
matches_parts pf password (salt ∷ [] ∷ rest) = ok false
matches_parts pf password (salt ∷ expected ∷ rest) =
    constant_time_matches (pf.scrypt password salt) expected

unfoldable pub verify_password : Platform → Text → Text → Result Refusal Bool
unfolding split
verify_password pf password stored = matches_parts pf password (split b':' stored)
