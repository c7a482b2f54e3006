-- ===== src/Text/Parts.antt =====
-- `split`, `join` and `trim` of JavaScript's strings.
use Prim.Native.Char.{code}
use judge.Base.{
  ℕ, String, List, [], ◌∷◌, Bool, true, false, not, ◌&&◌, ◌||◌, ◌≡◌, ◌==◌, leb, if◌then◌else◌, map,
  filter,
}
use judge.Text.{every_char}

-- the white space and the line ends of ECMAScript
unfoldable pub is_space : ℕ → Bool
is_space c =
    leb 9 c && leb c 13
    || c == 32
    || c == 160
    || c == 5760
    || leb 8192 c && leb c 8202
    || c == 8232
    || c == 8233
    || c == 8239
    || c == 8287
    || c == 12288
    || c == 65279

-- `!s`
abbrev pub is_empty : String → Bool
is_empty String.[] = true
is_empty (String.◌∷◌ c s) = false

unfoldable pub trim_start : String → String
trim_start String.[] = ""
trim_start (String.◌∷◌ c s) =
    let rest = trim_start s in if is_space (code c) then rest else String.◌∷◌ c s

unfoldable pub trim_end : String → String
trim_end String.[] = ""
trim_end (String.◌∷◌ c s) =
    let rest = trim_end s in if is_empty rest && is_space (code c) then "" else String.◌∷◌ c rest

unfoldable pub trim : String → String
unfolding trim_start trim_end
trim s = trim_start (trim_end s)

-- The part up to the first separator, and the parts after it.
unfoldable pub cut : ℕ → String → String × List String
cut sep String.[] = ("", [])
cut sep (String.◌∷◌ c s) =
    let (p, ps) = cut sep s in if code c == sep then ("", p ∷ ps) else (String.◌∷◌ c p, ps)

-- `s.split(sep)`, at a separator of one character
unfoldable pub split : ℕ → String → List String
unfolding cut
split sep s = let (p, ps) = cut sep s in p ∷ ps

-- `s + t`
unfoldable pub append : String → String → String
append String.[] t = t
append (String.◌∷◌ c s) t = String.◌∷◌ c (append s t)

-- `parts.join(sep)`
unfoldable pub join : String → List String → String
unfolding append
join sep [] = ""
join sep (p ∷ []) = p
join sep (p ∷ q ∷ ps) = append p (append sep (join sep (q ∷ ps)))

-- `s.split(sep).map((s) => s.trim()).filter(Boolean)`
unfoldable pub words : ℕ → String → List String
unfolding split trim
words sep s = filter (λ p. not (is_empty p)) (map trim (split sep s))

-- A part that `words` can give: without the separator, trimmed, and not empty.
abbrev pub IsWord : ℕ → String → Type 0
IsWord sep s = (every_char (λ c. not (c == sep)) s ≡ true) × (trim s ≡ s) × (is_empty s ≡ false)
