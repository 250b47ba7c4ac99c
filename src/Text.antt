-- ===== src/Text.antt =====
-- JavaScript values and texts as the request handlers meet them: a text is the list of its code
-- points. `trim` and `Number.parseInt` are the language's own.
pub mod Split
pub mod Trimmed
use Prim.Native.Char.{code}
use Prim.Native.String.{String}
use mathlib.Core.List.{reverse}
use agentschat.Prelude.{
  ℕ, ◌+◌, ◌-◌, ◌*◌, ◌≡◌, refl, arith, Bool, true, false, ◌&&◌, ◌||◌, List, [], ◌∷◌, Option, none,
  some, leb, ◌==◌, if◌then◌else◌,
}

abbrev pub Text : Type 0
Text = List ℕ

abbrev pub codes : String → Text
codes String.[] = []
codes (String.◌∷◌ c s) = code c ∷ codes s

-- A value of type `unknown`. A number is a non-negative integer or some other number (negative,
-- fractional, NaN, infinite).
pub data Unknown : Type 0 where
  undefined null other_number object : Unknown
  boolean : Bool → Unknown
  number : ℕ → Unknown
  string : Text → Unknown

-- White space and line terminators of ECMAScript.
unfoldable pub is_space : ℕ → Bool
is_space c =
    leb 9 c && leb c 13
    || c == 32
    || c == 160
    || c == 5760
    || leb 8192 c && leb c 8202
    || c == 8232
    || c == 8233
    || c == 8239
    || c == 8287
    || c == 12288
    || c == 65279

unfoldable pub trim_start : Text → Text
unfolding is_space
trim_start [] = []
trim_start (c ∷ s) = if is_space c then trim_start s else c ∷ s

-- `String.prototype.trim`
unfoldable pub trim : Text → Text
unfolding trim_start
trim s = reverse (trim_start (reverse (trim_start s)))

abbrev pub non_empty : Text → Option Text
non_empty [] = none
non_empty (c ∷ s) = some (c ∷ s)

-- `optionalString`
unfoldable pub optional_string : Unknown → Option Text
unfolding trim
optional_string (Unknown.string s) = non_empty (trim s)
optional_string _ = none

-- `optionalBoolean`
unfoldable pub optional_boolean : Unknown → Option Bool
optional_boolean (Unknown.boolean b) = some b
optional_boolean _ = none

abbrev is_digit : ℕ → Bool
is_digit c = leb b'0' c && leb c b'9'

-- The digits at the front, read on from a value.
unfoldable pub read_digits : ℕ → Text → ℕ
read_digits acc [] = acc
read_digits acc (c ∷ s) = if is_digit c then read_digits (acc * 10 + (c - b'0')) s else acc

abbrev read_number : Text → Option ℕ
read_number [] = none
read_number (c ∷ s) = if is_digit c then some (read_digits 0 (c ∷ s)) else none

abbrev skip_plus : Text → Text
skip_plus [] = []
skip_plus (c ∷ s) = if c == b'+' then s else c ∷ s

-- `Number.parseInt(s, 10)` where it is a non-negative integer; `none` stands for NaN and for a
-- negative result.
unfoldable pub parse_int : Text → Option ℕ
unfolding trim_start read_digits
parse_int s = read_number (skip_plus (trim_start s))

abbrev only_zero : Option ℕ → Option ℕ
only_zero none = none
only_zero (some n) = if n == 0 then some 0 else none

abbrev parse_signed : Text → Option ℕ
parse_signed [] = none
parse_signed (c ∷ s) =
    if c == b'-' then only_zero (read_number s) else read_number (skip_plus (c ∷ s))

-- `Number.parseInt(s, 10)` where it is not negative, `-0` included; `none` stands for NaN and for a
-- negative result.
unfoldable pub parse_not_negative : Text → Option ℕ
unfolding trim_start read_digits
parse_not_negative s = parse_signed (trim_start s)

unfoldable pub same_text : Text → Text → Bool
same_text [] [] = true
same_text (c ∷ s) (d ∷ t) = c == d && same_text s t
same_text [] (d ∷ t) = false
same_text (c ∷ s) [] = false

pub same_text_refl : (s : Text) → same_text s s ≡ true
unfolding same_text
same_text_refl [] = refl
same_text_refl (c ∷ s) = ground (arith, same_text_refl s)
