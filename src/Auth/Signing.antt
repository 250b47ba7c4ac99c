-- ===== src/Auth/Signing.antt =====
-- What a signed token says when it comes back, and what becomes of a token whose signature takes
-- another number of bytes.
use agentschat.Prelude.{ℕ, ◌+◌, ◌<◌, ◌≡◌, ◌≢◌, refl, ap, ◌∙◌, true, ◌∷◌, ◌++◌, [], some, arith}
use agentschat.Prelude.Table.{find_one}
use agentschat.Prelude.Action.{ok}
use agentschat.Text.{Text, codes, same_text, same_text_refl}
use agentschat.Text.Split.{split, lacks, split-lacks, split-join}
use agentschat.Auth.Store.{UserEntity, AuthDb, RawPayload, Decoded, Platform, user_by_id}
use agentschat.Auth.Normalize.{constant_time_matches}
use agentschat.Auth.Accounts.{to_authenticated_human}
use agentschat.Auth.Sessions.{authenticate-verified}
use agentschat.Auth.Tokens.{
  token_lifetime_ms, payload_of, sign_human_token, check_payload, check_signature, verify_parts,
  verify_token, authenticate_human_token,
}

-- base64url and hexadecimal texts are not empty and have no dot; a payload is read back as it was
-- written.
pub record IsPlatform (pf : Platform) : Type 0 where
  pub encode_lacks : (p : RawPayload) → lacks b'.' (pf.encode p) ≡ true
  pub encode_non_empty : (p : RawPayload) → pf.encode p ≢ []
  pub hmac_lacks : (s : Text) → lacks b'.' (pf.hmac s) ≡ true
  pub hmac_non_empty : (s : Text) → pf.hmac s ≢ []
  pub decode-encode : (p : RawPayload) → pf.decode (pf.encode p) ≡ Decoded.object p

pub matches_refl : (s : Text) → constant_time_matches s s ≡ ok true
unfolding constant_time_matches
matches_refl s = ground (arith, same_text_refl s)

-- The three parts of a text with two dots.
split_three :
    (a b c : Text)
    → lacks b'.' a ≡ true
    → lacks b'.' b ≡ true
    → lacks b'.' c ≡ true
    → split b'.' (a ++ (b'.' ∷ (b ++ (b'.' ∷ c)))) ≡ a ∷ b ∷ c ∷ []
split_three a b c h i j =
    simp (split-join b'.' a (b ++ (b'.' ∷ c)) h, split-join b'.' b c i, split-lacks b'.' c j)

verify_parts-signed :
    (pf : Platform) (now : ℕ) (encoded : Text)
    → encoded ≢ []
    → pf.hmac encoded ≢ []
    → verify_parts pf now (codes "v1" ∷ encoded ∷ pf.hmac encoded ∷ [])
      ≡ check_payload now (pf.decode encoded)
unfolding verify_parts check_signature same_text
verify_parts-signed pf now encoded h i = ground (arith, matches_refl (pf.hmac encoded), h, i)

verify_token-sign :
    (pf : Platform) (now later : ℕ) (u : UserEntity)
    → IsPlatform pf
    → later < now + token_lifetime_ms
    → verify_token pf later (sign_human_token pf now u)
      ≡ ok (record { sub = u.id; exp = now + token_lifetime_ms; ver = u.auth_token_version })
unfolding sign_human_token verify_token check_payload
verify_token-sign pf now later u plat fresh =
    let p : RawPayload = payload_of now u in
    let encoded : Text = pf.encode p in
    let parts =
      split_three (codes "v1") encoded (pf.hmac encoded) (unfold lacks in refl)
        (plat.encode_lacks p) (plat.hmac_lacks encoded) in
    let signed =
      verify_parts-signed pf later encoded (plat.encode_non_empty p)
        (plat.hmac_non_empty encoded) in
    ap (verify_parts pf later) parts ∙ (signed ∙ ground (arith, plat.decode-encode p))

-- Until its end, the token of a user whose version is still that of the token signs the user in.
pub authenticate-sign :
    (pf : Platform) (now later : ℕ) (u : UserEntity) (db : AuthDb)
    → IsPlatform pf
    → find_one (user_by_id u.id) db.users ≡ some u
    → later < now + token_lifetime_ms
    → (authenticate_human_token pf later (sign_human_token pf now u) db).0
      ≡ ok (record {
        human = to_authenticated_human u;
        version = u.auth_token_version;
        expires_at = now + token_lifetime_ms;
      })
authenticate-sign pf now later u db plat found fresh =
    let verified = verify_token-sign pf now later u plat fresh in
    authenticate-verified pf later (sign_human_token pf now u) db _ verified ∙ ground (arith, found)
