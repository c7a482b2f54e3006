-- ===== src/Web/Labels.antt =====
-- platform/frontend/components/StatusBadge.tsx, components/DifficultyBadge.tsx and lib/languages.ts.
use judge.Base.{
  ℕ, String, Bool, true, false, List, [], ◌∷◌, Option, none, some, ◌==◌, if◌then◌else◌,
}
use judge.Schema.{
  SubmissionStatus, pending, running, ac, wa, tle, mle, re, ce, ie, Difficulty, easy, medium, hard,
}

-- `LABEL`
unfoldable pub label : SubmissionStatus → String
label ac = "Accepted"
label wa = "Wrong Answer"
label tle = "Time Limit"
label mle = "Memory Limit"
label re = "Runtime Error"
label ce = "Compile Error"
label ie = "Internal Error"
label pending = "Pending"
label running = "Running"

pub data Colour : Type 0 where
  green amber red blue : Colour

abbrev is_ok : SubmissionStatus → Bool
is_ok ac = true
is_ok _ = false

abbrev is_pending : SubmissionStatus → Bool
is_pending pending = true
is_pending running = true
is_pending _ = false

-- the one of the three classes whose condition holds
unfoldable pub status_colour : SubmissionStatus → Colour
status_colour v = if is_ok v then green else if is_pending v then blue else red

unfoldable pub difficulty_colour : Difficulty → Colour
difficulty_colour easy = green
difficulty_colour medium = amber
difficulty_colour hard = red

pub record LangInfo : Type 0 where
  pub id : ℕ
  pub name : String
  pub monaco : String

unfoldable pub languages : List LangInfo
languages =
    record { id = 71; name = "Python (3.8.1)"; monaco = "python" }
    ∷ record { id = 70; name = "Python (2.7.17)"; monaco = "python" }
    ∷ record { id = 63; name = "JavaScript (Node 12.14.0)"; monaco = "javascript" }
    ∷ record { id = 74; name = "TypeScript (3.7.4)"; monaco = "typescript" }
    ∷ record { id = 54; name = "C++ (GCC 9.2.0)"; monaco = "cpp" }
    ∷ record { id = 50; name = "C (GCC 9.2.0)"; monaco = "c" }
    ∷ record { id = 62; name = "Java (OpenJDK 13.0.1)"; monaco = "java" }
    ∷ record { id = 60; name = "Go (1.13.5)"; monaco = "go" }
    ∷ record { id = 73; name = "Rust (1.40.0)"; monaco = "rust" }
    ∷ record { id = 51; name = "C# (Mono 6.6.0.161)"; monaco = "csharp" }
    ∷ record { id = 68; name = "PHP (7.4.1)"; monaco = "php" }
    ∷ record { id = 72; name = "Ruby (2.7.0)"; monaco = "ruby" }
    ∷ []

unfoldable pub find_lang : ℕ → List LangInfo → Option LangInfo
find_lang id [] = none
find_lang id (l ∷ ls) = if l.id == id then some l else find_lang id ls

unfoldable pub lang_by_id : ℕ → Option LangInfo
unfolding find_lang languages
lang_by_id id = find_lang id languages
