-- ===== src/Auth/Digits.antt =====
-- The codes that the service generates are codes that it accepts.
use Prim.Native.Nat.{◌/◌, ◌%◌}
use agentschat.Prelude.{
  ℕ, zero, suc, ◌+◌, ◌-◌, ◌*◌, ◌≤◌, ◌<◌, ◌≡◌, refl, true, not, [], ◌∷◌, arith, length,
}
use agentschat.Prelude.Every.{every}
use agentschat.Prelude.Action.{ok}
use agentschat.Text.{Text, is_space}
use agentschat.Text.Trimmed.{has_no_space, trim-has_no_space, find_by-every, every_mono}
use agentschat.Auth.Normalize.{
  is_digit, is_code, decimal, pad, pad_start, generate_email_code, normalize_email_code,
}

digit_no_space : (c : ℕ) → is_digit c ≡ true → not (is_space c) ≡ true
unfolding is_space
digit_no_space c h = ground arith

every-pad : (n : ℕ) (s : Text) → every is_digit s ≡ true → every is_digit (pad n s) ≡ true
unfolding every pad
every-pad zero s h = h
every-pad (suc n) s h = ground (arith, every-pad n s h)

length-pad : (n : ℕ) (s : Text) → length (pad n s) ≡ n + length s
unfolding pad
length-pad zero s = ground arith
length-pad (suc n) s = ground (arith, length-pad n s)

every-decimal :
    (f n : ℕ) (rest : Text) → every is_digit rest ≡ true → every is_digit (decimal f n rest) ≡ true
unfolding every decimal
every-decimal zero n rest h = h
every-decimal (suc f) n rest h = ground (arith, every-decimal f (n / 10) ((b'0' + n % 10) ∷ rest))

abbrev power_of_ten : ℕ → ℕ
power_of_ten zero = 1
power_of_ten (suc k) = 10 * power_of_ten k

length-decimal :
    (f n k : ℕ) (rest : Text)
    → n < power_of_ten k
    → 0 < k
    → length (decimal f n rest) ≤ k + length rest
unfolding decimal
length-decimal zero n k rest h p = ground arith
length-decimal (suc f) n zero rest h p = absurd (omega arith)
length-decimal (suc f) n (suc zero) rest h p = ground arith
length-decimal (suc f) n (suc (suc k)) rest h p =
    ground (arith, length-decimal f (n / 10) (suc k) ((b'0' + n % 10) ∷ rest))

generated-is_code : (draw : ℕ) → draw < 1000000 → is_code (generate_email_code draw) ≡ true
unfolding generate_email_code pad_start
generated-is_code draw h =
    let digits : Text = decimal 6 draw [] in
    let short = length-decimal 6 draw 6 [] (omega arith) (omega arith) in
    ground (
      arith,
      short,
      length-pad (6 - length digits) digits,
      every-pad (6 - length digits) digits,
      every-decimal 6 draw [] (unfold every in refl),
    )

normalize-is_code : (s : Text) → is_code s ≡ true → normalize_email_code s ≡ ok s
unfolding normalize_email_code
normalize-is_code s h =
    let spaceless : has_no_space s ≡ true =
      every_mono is_digit (λ c. not (is_space c)) digit_no_space s (ground arith) in
    ground (arith, trim-has_no_space s spaceless, find_by-every (λ c. not (is_space c)) s spaceless)

-- A generated code is six digits long, and is its own normal form.
pub normalize_email_code-generate_email_code :
    (draw : ℕ)
    → draw < 1000000
    → normalize_email_code (generate_email_code draw) ≡ ok (generate_email_code draw)
normalize_email_code-generate_email_code draw h =
    normalize-is_code (generate_email_code draw) (generated-is_code draw h)
