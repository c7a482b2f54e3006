-- ===== src/Text.antt =====
-- What the program uses of JavaScript's strings.
pub mod Parts
pub mod Words
use Prim.Native.Char.{code}
use Prim.Native.String
use judge.Base.{ℕ, ◌+◌, String, List, [], ◌∷◌, Bool, true, ◌&&◌, leb, ltb, if◌then◌else◌}

-- `s.length`, in UTF-16 code units
unfoldable pub utf16_length : String → ℕ
utf16_length String.[] = 0
utf16_length (String.◌∷◌ c s) = (if ltb (code c) 65536 then 1 else 2) + utf16_length s

-- the characters of a regular expression's class `[…]`, for every character of a text
unfoldable pub every_char : (ℕ → Bool) → String → Bool
every_char p String.[] = true
every_char p (String.◌∷◌ c s) = p (code c) && every_char p s

abbrev pub is_lower : ℕ → Bool
is_lower c = leb b'a' c && leb c b'z'

abbrev pub is_upper : ℕ → Bool
is_upper c = leb b'A' c && leb c b'Z'

abbrev pub is_digit : ℕ → Bool
is_digit c = leb b'0' c && leb c b'9'

-- `.min(n)` and `.max(n)` of a text
unfoldable pub min_length : ℕ → String → Bool
unfolding utf16_length
min_length n s = leb n (utf16_length s)

unfoldable pub max_length : ℕ → String → Bool
unfolding utf16_length
max_length n s = leb (utf16_length s) n

-- A template literal: its parts in a row.
abbrev pub concat : List String → String
concat [] = ""
concat (s ∷ parts) = String.◌++◌ s (concat parts)
