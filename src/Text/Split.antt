-- ===== src/Text/Split.antt =====
-- `String.prototype.split` at one character, what it gives of joined texts, and the length in UTF-16
-- units and in UTF-8 bytes.
use agentschat.Prelude.{
  ℕ, ◌+◌, ◌≡◌, refl, Bool, true, not, ◌&&◌, List, [], ◌∷◌, ◌++◌, ◌==◌, ltb, if◌then◌else◌, arith,
}
use agentschat.Text.{Text}

abbrev add_front : ℕ → List Text → List Text
add_front c [] = (c ∷ []) ∷ []
add_front c (part ∷ parts) = (c ∷ part) ∷ parts

unfoldable pub split : ℕ → Text → List Text
split sep [] = [] ∷ []
split sep (c ∷ s) = let rest = split sep s in if c == sep then [] ∷ rest else add_front c rest

-- The text has no such character.
unfoldable pub lacks : ℕ → Text → Bool
lacks sep [] = true
lacks sep (c ∷ s) = not (c == sep) && lacks sep s

-- `length`: a code point beyond the basic plane is two units.
unfoldable pub utf16_length : Text → ℕ
utf16_length [] = 0
utf16_length (c ∷ s) = (if ltb 65535 c then 2 else 1) + utf16_length s

-- How many bytes the text takes in UTF-8.
unfoldable pub utf8_length : Text → ℕ
utf8_length [] = 0
utf8_length (c ∷ s) =
    (if ltb c 128 then 1 else if ltb c 2048 then 2 else if ltb c 65536 then 3 else 4)
    + utf8_length s

pub split-lacks : (sep : ℕ) (s : Text) → lacks sep s ≡ true → split sep s ≡ s ∷ []
unfolding split lacks
split-lacks sep [] h = refl
split-lacks sep (c ∷ s) h = ground (arith, split-lacks sep s)

pub split-join :
    (sep : ℕ) (s t : Text) → lacks sep s ≡ true → split sep (s ++ sep ∷ t) ≡ s ∷ split sep t
unfolding split lacks
split-join sep [] t h = ground arith
split-join sep (c ∷ s) t h = ground (arith, split-join sep s t)
