-- ===== src/Text/Trimmed.antt =====
-- Texts without white space at their ends are trimmed already.
use mathlib.Core.List.{reverse, reverse_aux, reverse-reverse}
use agentschat.Prelude.{◌≡◌, refl, ap, ◌∙◌, Bool, true, not, ◌&&◌, List, [], ◌∷◌, arith}
use agentschat.Prelude.Every.{every}
use agentschat.Prelude.Table.{find_by}
use agentschat.Text.{Text, is_space, trim_start, trim}

module _ {ℓ} {A : Type ℓ} (t : A → Bool) where
  every-reverse_aux : (xs ys : List A) → every t (reverse_aux xs ys) ≡ every t xs && every t ys
  unfolding every
  every-reverse_aux [] ys = refl
  every-reverse_aux (x ∷ xs) ys = ground (arith, every-reverse_aux xs (x ∷ ys))

  every-reverse : (xs : List A) → every t (reverse xs) ≡ every t xs
  unfolding every
  every-reverse xs = ground (arith, every-reverse_aux xs [])

  pub find_by-every : (xs : List A) → every t xs ≡ true → find_by t xs ≡ xs
  unfolding every find_by
  find_by-every [] h = refl
  find_by-every (x ∷ xs) h = ground (arith, find_by-every xs)

  pub every_mono :
      (u : A → Bool)
      → ((a : A) → t a ≡ true → u a ≡ true)
      → (xs : List A) → every t xs ≡ true
      → every u xs ≡ true
  unfolding every
  every_mono u f [] h = refl
  every_mono u f (x ∷ xs) h = ground (arith, f x, every_mono u f xs)

-- No white space anywhere.
abbrev pub has_no_space : Text → Bool
has_no_space s = every (λ c. not (is_space c)) s

trim_start-has_no_space : (s : Text) → has_no_space s ≡ true → trim_start s ≡ s
unfolding trim_start every
trim_start-has_no_space [] h = refl
trim_start-has_no_space (c ∷ s) h = ground arith

pub trim-has_no_space : (s : Text) → has_no_space s ≡ true → trim s ≡ s
unfolding trim
trim-has_no_space s h =
    let front = trim_start-has_no_space s h in
    let back = trim_start-has_no_space (reverse s) (every-reverse (λ c. not (is_space c)) s ∙ h) in
    ap (λ r. reverse (trim_start (reverse r))) front ∙ (ap reverse back ∙ reverse-reverse s)
