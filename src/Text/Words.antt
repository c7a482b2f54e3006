-- ===== src/Text/Words.antt =====
-- Words that are joined, split again and trimmed.
use Prim.Native.Char.{code}
use judge.Base.{
  ℕ, String, List, [], ◌∷◌, Bool, true, not, ◌≡◌, refl, ◌==◌, All, arith, map, filter, Bool-cases,
  inl, inr,
}
use judge.Text.{every_char}
use judge.Text.Parts.{
  is_space, is_empty, trim_start, trim_end, trim, append, cut, split, join, words, IsWord,
}

trim_start-trim_end : (s : String) → trim_end (trim_start s) ≡ trim_start (trim_end s)
unfolding trim_start trim_end
trim_start-trim_end String.[] = refl
trim_start-trim_end (String.◌∷◌ c s) = ground (arith, trim_start-trim_end s)

trim_start_idem : (s : String) → trim_start (trim_start s) ≡ trim_start s
unfolding trim_start
trim_start_idem String.[] = refl
trim_start_idem (String.◌∷◌ c s) = ground (arith, trim_start_idem s)

trim_end_idem : (s : String) → trim_end (trim_end s) ≡ trim_end s
unfolding trim_end
trim_end_idem String.[] = refl
trim_end_idem (String.◌∷◌ c s) = ground (arith, trim_end_idem s)

trim_idem : (s : String) → trim (trim s) ≡ trim s
unfolding trim
trim_idem s = cc (trim_start-trim_end (trim_end s), trim_end_idem s, trim_start_idem (trim_end s))

module _ (p : ℕ → Bool) where
  every_char-trim_start : (s : String) → every_char p s ≡ true → every_char p (trim_start s) ≡ true
  unfolding every_char trim_start
  every_char-trim_start String.[] h = refl
  every_char-trim_start (String.◌∷◌ c s) h = ground (arith, every_char-trim_start s)

  every_char-trim_end : (s : String) → every_char p s ≡ true → every_char p (trim_end s) ≡ true
  unfolding every_char trim_end
  every_char-trim_end String.[] h = refl
  every_char-trim_end (String.◌∷◌ c s) h = ground (arith, every_char-trim_end s)

  every_char-trim : (s : String) → every_char p s ≡ true → every_char p (trim s) ≡ true
  unfolding trim
  every_char-trim s h = every_char-trim_start (trim_end s) (every_char-trim_end s h)

trim_space : (s : String) → trim (append " " s) ≡ trim s
unfolding trim trim_start trim_end is_space append
trim_space s = ground (arith, trim_end s)

cut_word : (sep : ℕ) (s : String) → every_char (λ c. not (c == sep)) s ≡ true → cut sep s ≡ (s, [])
unfolding cut every_char
cut_word sep String.[] h = refl
cut_word sep (String.◌∷◌ c s) h = ground (arith, cut_word sep s)

-- A word without the separator is cut off whole, whatever follows.
cut-append :
    (sep : ℕ) (s t : String)
    → every_char (λ c. not (c == sep)) s ≡ true
    → cut sep (append s t) ≡ (append s (cut sep t).0, (cut sep t).1)
unfolding cut every_char append
cut-append sep String.[] t h = refl
cut-append sep (String.◌∷◌ c s) t h = ground (arith, cut-append sep s t)

append-empty : (s : String) → append s "" ≡ s
unfolding append
append-empty String.[] = refl
append-empty (String.◌∷◌ c s) = cc (append-empty s)

cut-comma :
    (s : String) → cut b',' (append ", " s) ≡ ("", append " " (cut b',' s).0 ∷ (cut b',' s).1)
unfolding cut append
cut-comma s = refl

cut-join :
    (t : String) (ts : List String)
    → All (IsWord b',') (t ∷ ts)
    → cut b',' (join ", " (t ∷ ts)) ≡ (t, map (append " ") ts)
unfolding join
cut-join t [] (h, hs) = cut_word b',' t h.0
cut-join t (u ∷ ts) (h, hs) = cc (
  cut-append b',' t (append ", " (join ", " (u ∷ ts))) h.0,
  cut-comma (join ", " (u ∷ ts)),
  cut-join u ts hs,
  append-empty t,
)

words_spaced :
    (ts : List String)
    → All (IsWord b',') ts
    → filter (λ p. not (is_empty p)) (map trim (map (append " ") ts)) ≡ ts
words_spaced [] hs = refl
words_spaced (t ∷ ts) (h, hs) = ground (arith, trim_space t, words_spaced ts hs)

-- Words that are joined by ", " and split at the commas are the same words.
pub words-join : (ts : List String) → All (IsWord b',') ts → words b',' (join ", " ts) ≡ ts
unfolding words
words-join [] h = unfold join in refl
words-join (t ∷ ts) h = ground (arith, cut-join t ts h, words_spaced ts h.1)

every_char-cut :
    (sep : ℕ) (s : String)
    → All (λ p. every_char (λ c. not (c == sep)) p ≡ true) ((cut sep s).0 ∷ (cut sep s).1)
unfolding cut every_char
every_char-cut sep String.[] = (refl, tt)
every_char-cut sep (String.◌∷◌ c s) = elim (Bool-cases (code c == sep)) [
  | inl e ↦ rw e (refl, every_char-cut sep s)
  | inr e ↦ rw e (ground (arith, (every_char-cut sep s).0), (every_char-cut sep s).1)
]

words_kept :
    (sep : ℕ) (ps : List String)
    → All (λ p. every_char (λ c. not (c == sep)) p ≡ true) ps
    → All (IsWord sep) (filter (λ p. not (is_empty p)) (map trim ps))
words_kept sep [] h = tt
words_kept sep (p ∷ ps) (h, hs) =
    ground (arith, words_kept sep ps hs, trim_idem p, every_char-trim (λ c. not (c == sep)) p h)

-- What is split, trimmed and filtered is words.
pub words-IsWord : (sep : ℕ) (s : String) → All (IsWord sep) (words sep s)
unfolding words split
words-IsWord sep s = words_kept sep ((cut sep s).0 ∷ (cut sep s).1) (every_char-cut sep s)
