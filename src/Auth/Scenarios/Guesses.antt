-- ===== src/Auth/Scenarios/Guesses.antt =====
-- Guesses at Ann's code.
use agentschat.Prelude.{ℕ, ◌+◌, ◌≤◌, ◌≡◌, refl, true, false, List, [], ◌∷◌, arith}
use agentschat.Prelude.Table.{find_one, find_by, exists}
use agentschat.Prelude.Every.{every}
use agentschat.Prelude.Distinct.{distinct}
use agentschat.Prelude.Action.{ok}
use agentschat.Text.{Text, codes, trim, trim_start, is_space, same_text}
use agentschat.Text.Split.{utf16_length, utf8_length}
use agentschat.Auth.Store.{Refusal}
use agentschat.Auth.Normalize.{
  normalize_email_code, decimal, pad, pad_start, generate_email_code, hash_email_code,
  constant_time_matches,
}
use agentschat.Auth.Codes.{
  newest, find_active_email_code, consume_email_code, answer_guess, judge_code,
  require_valid_email_code, new_code, create_and_send_email_code,
}
use agentschat.Auth.Limit.{all_within}
use agentschat.Auth.Moves.{Held, Move, Moves, IsWithinLimit, Moves-IsWithinLimit}
use agentschat.Auth.Saved.{attempts, has_distinct_ids}
use agentschat.Auth.Guesses.{Guess, misses, wrong_guesses, wrong_guesses_at_most_five}
use agentschat.Auth.Overlap.{
  judge_each, is_live_code, overlapping_guesses_count_once, stale_guess_revives_code,
}
use agentschat.Auth.Accepted.{IsAccepted, require_valid_email_code-IsAccepted}
use agentschat.Auth.Sent.{require_valid_email_code-sent}
use agentschat.Auth.Scenarios.{platform, shifted, key, code, one_code, right_code}

abbrev wrong_code : Text
wrong_code = codes "000000"

abbrev invalid : Refusal
invalid = Refusal.invalid_reset_code

-- A request looks the code up, another is sent, and the first judges a guess by its copy.
moved :
    Moves platform
      (record { db = one_code; held = [] })
      (record {
        db =
            (judge_code platform 3000 key wrong_code invalid code
              (create_and_send_email_code platform 2000 key 600 7 true one_code).1).1;
        held = code ∷ [];
      })
unfolding find_active_email_code newest find_by same_text
moved = Moves.step (Move.look_up 1500 key code _ _ refl refl) (
    Moves.step (Move.send 2000 key 600 7 true _ _ refl)
      (Moves.step (Move.judge 3000 key wrong_code invalid code _ _ Held.first refl) Moves.done))

Moves-IsWithinLimit_example : IsWithinLimit (record {
  db =
      (judge_code platform 3000 key wrong_code invalid code
        (create_and_send_email_code platform 2000 key 600 7 true one_code).1).1;
  held = code ∷ [];
})
unfolding IsWithinLimit all_within every
Moves-IsWithinLimit_example = Moves-IsWithinLimit platform moved (refl, refl)

abbrev guess_at : ℕ → Guess
guess_at now = record { now = now; key = key; code = wrong_code; refusal = invalid }

abbrev guesses : List Guess
guesses = guess_at 2000 ∷ guess_at 2001 ∷ []

wrong_guesses_at_most_five_example :
    wrong_guesses platform 5 guesses one_code + attempts 5 one_code ≤ 5
unfolding has_distinct_ids distinct all_within every exists
wrong_guesses_at_most_five_example =
    wrong_guesses_at_most_five platform 5 guesses one_code refl refl

overlapping_guesses_count_once_example :
    attempts 5 (
      judge_each platform key invalid code
        ((2000, wrong_code) ∷ (2001, wrong_code) ∷ (2002, wrong_code) ∷ [])
        one_code)
    ≡ 1
unfolding misses every constant_time_matches hash_email_code shifted same_text utf16_length
    utf8_length generate_email_code pad_start pad decimal
overlapping_guesses_count_once_example =
    overlapping_guesses_count_once platform key invalid code 2000 wrong_code
      ((2001, wrong_code) ∷ (2002, wrong_code) ∷ []) one_code refl

stale_guess_revives_code_example :
    (is_live_code 4000 key 5 (consume_email_code 2000 code one_code).1 ≡ false)
    × (is_live_code 4000 key 5
          (judge_code platform 3000 key wrong_code invalid code
            (consume_email_code 2000 code one_code).1).1
        ≡ true)
unfolding misses constant_time_matches hash_email_code shifted same_text utf16_length utf8_length
    generate_email_code pad_start pad decimal find_one
stale_guess_revives_code_example =
    stale_guess_revives_code platform 4000 2000 3000 key wrong_code invalid code one_code refl refl
      refl (omega arith)

require_valid_email_code-IsAccepted_example :
    (submitted : Text) × IsAccepted platform 2000 key right_code one_code code submitted
    × ((require_valid_email_code platform 2000 key right_code invalid one_code).1 ≡ one_code)
unfolding has_distinct_ids distinct exists require_valid_email_code normalize_email_code trim
    trim_start is_space find_by every find_active_email_code newest judge_code answer_guess
    constant_time_matches hash_email_code shifted same_text utf16_length utf8_length
    generate_email_code pad_start pad decimal
require_valid_email_code-IsAccepted_example =
    require_valid_email_code-IsAccepted platform 2000 key right_code invalid one_code code refl refl

require_valid_email_code-sent_example :
    (require_valid_email_code platform 5000 key
      (generate_email_code 42)
      invalid
      (create_and_send_email_code platform 2000 key 600 42 true one_code).1).0
    ≡ ok (new_code platform 2000 key 600 42 6)
require_valid_email_code-sent_example =
    require_valid_email_code-sent platform 2000 5000 key 600 42 invalid one_code (omega arith)
      (omega arith) (omega arith)
