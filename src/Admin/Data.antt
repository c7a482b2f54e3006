-- ===== src/Admin/Data.antt =====
-- The body of a problem, `problemSchema`, and the rows that are made of it.
use judge.Base.{ℕ, String, Bool, false, ◌&&◌, ◌||◌, List, [], ◌∷◌, Option, any, str_eq, ◌==◌}
use judge.Text.{min_length, every_char, is_lower, is_digit}
use judge.Schema.{Difficulty, ℤ, pos, negsuc, StarterCode, TestCase, ProblemTag}

pub record StarterData : Type 0 where
  pub language_id : ℤ
  pub code : String

pub record CaseData : Type 0 where
  pub input : String
  pub expected_output : String
  pub is_sample : Bool
  pub order : ℤ

pub record ProblemData : Type 0 where
  pub slug : String
  pub title : String
  pub statement_md : String
  pub constraints_md : Option String
  pub difficulty : Difficulty
  pub is_published : Bool
  pub tags : List String
  pub starter_codes : List StarterData
  pub test_cases : List CaseData

-- the class of `/^[a-z0-9-]+$/`
abbrev is_slug_char : ℕ → Bool
is_slug_char c = is_lower c || is_digit c || c == b'-'

unfoldable pub problem_checks : ProblemData → Bool
problem_checks d =
    min_length 1 d.slug
    && every_char is_slug_char d.slug
    && min_length 1 d.title
    && min_length 1 d.statement_md

abbrev pub same_text : String → String → Bool
same_text a b = str_eq a b

abbrev same_int : ℤ → ℤ → Bool
same_int (pos a) (pos b) = a == b
same_int (negsuc a) (negsuc b) = a == b
same_int _ _ = false

abbrev pub same_language : StarterData → StarterData → Bool
same_language a b = same_int a.language_id b.language_id

unfoldable pub has_duplicate : {A : Type 0} → (A → A → Bool) → List A → Bool
has_duplicate same [] = false
has_duplicate same (x ∷ xs) = any (same x) xs || has_duplicate same xs

unfoldable pub starter_row : String → String → StarterData → StarterCode
starter_row id problem_id s = record {
  id = id;
  problem_id = problem_id;
  language_id = s.language_id;
  code = s.code;
}

unfoldable pub case_row : String → String → CaseData → TestCase
case_row id problem_id c = record {
  id = id;
  problem_id = problem_id;
  input = c.input;
  expected_output = c.expected_output;
  is_sample = c.is_sample;
  order = c.order;
}

-- what a request says of a test case
abbrev pub content : TestCase → CaseData
content t = record {
  input = t.input;
  expected_output = t.expected_output;
  is_sample = t.is_sample;
  order = t.order;
}

unfoldable pub tag_row : String → String → ProblemTag
tag_row problem_id tag_id = record { problem_id = problem_id; tag_id = tag_id }
