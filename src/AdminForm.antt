-- ===== src/AdminForm.antt =====
-- The form of a problem, platform/frontend/app/admin/problems/[id]/page.tsx: its fields, what each
-- control changes, how it is filled from the server's answer, and what it sends.
pub mod Saving
pub mod Orders
use judge.Base.{
  ℕ, zero, suc, String, Bool, true, false, List, [], ◌∷◌, ◌++◌, Option, none, some, map, length,
  or_else, str_eq, truthy, if◌then◌else◌,
}
use judge.Text.Parts.{join, words}
use judge.Schema.{Difficulty, easy, pos, StarterCode, TestCase, Tag}
use judge.Admin.{FullProblem}
use judge.Admin.Data.{ProblemData, StarterData, CaseData}
use judge.Client.{Fetched, Answer, received, api_error, failed, request}

pub record Form : Type 0 where
  pub slug : String
  pub title : String
  pub statement_md : String
  pub constraints_md : String
  pub difficulty : Difficulty
  pub is_published : Bool
  pub tags : String
  pub starter_codes : List StarterData
  pub test_cases : List CaseData

-- `EMPTY`
unfoldable pub empty_form : Form
empty_form = record {
  slug = "";
  title = "";
  statement_md = "";
  constraints_md = "";
  difficulty = easy;
  is_published = true;
  tags = "";
  starter_codes = record { language_id = pos 71; code = "" } ∷ [];
  test_cases = record { input = ""; expected_output = ""; is_sample = true; order = pos 0 } ∷ [];
}

abbrev pub starter_data : StarterCode → StarterData
starter_data s = record { language_id = s.language_id; code = s.code }

-- `t.order ?? i`: the column has no null.
abbrev pub case_data : TestCase → CaseData
case_data t = record {
  input = t.input;
  expected_output = t.expected_output;
  is_sample = t.is_sample;
  order = t.order;
}

abbrev pub slug_of : Tag → String
slug_of t = t.slug

-- The form that shows a problem.
unfoldable pub form_of : FullProblem → Form
form_of v = record {
  slug = v.problem.slug;
  title = v.problem.title;
  statement_md = v.problem.statement_md;
  constraints_md = or_else v.problem.constraints_md "";
  difficulty = v.problem.difficulty;
  is_published = v.problem.is_published;
  tags = join ", " (map slug_of v.tags);
  starter_codes = map starter_data v.starter_codes;
  test_cases = map case_data v.test_cases;
}

-- The body that `save` sends; a member that is `undefined` is not sent.
unfoldable pub payload : Form → ProblemData
payload f = record {
  slug = f.slug;
  title = f.title;
  statement_md = f.statement_md;
  constraints_md = truthy (some f.constraints_md);
  difficulty = f.difficulty;
  is_published = f.is_published;
  tags = words b',' f.tags;
  starter_codes = f.starter_codes;
  test_cases = f.test_cases;
}

-- `copy[i] = { ...row, … }`
unfoldable pub set_row : {R : Type 0} → ℕ → (R → R) → List R → List R
set_row i g [] = []
set_row zero g (r ∷ rows) = g r ∷ rows
set_row (suc i) g (r ∷ rows) = r ∷ set_row i g rows

-- `rows.filter((_, j) => j !== i)`
unfoldable pub remove_row : {R : Type 0} → ℕ → List R → List R
remove_row i [] = []
remove_row zero (r ∷ rows) = rows
remove_row (suc i) (r ∷ rows) = r ∷ remove_row i rows

-- What the controls of the form report.
pub data Edit : Type 0 where
  slug title tags statement constraints : String → Edit
  difficulty : Difficulty → Edit
  published : Bool → Edit
  add_starter add_case : Edit
  starter_language : ℕ → ℕ → Edit
  starter_code case_input case_expected : ℕ → String → Edit
  case_sample : ℕ → Bool → Edit
  remove_starter remove_case : ℕ → Edit

abbrev starter_rows : (List StarterData → List StarterData) → Form → Form
starter_rows g f = record f { starter_codes = g f.starter_codes }

abbrev case_rows : (List CaseData → List CaseData) → Form → Form
case_rows g f = record f { test_cases = g f.test_cases }

-- The `onChange` and `onClick` of each control.
unfoldable pub edit : Edit → Form → Form
unfolding set_row remove_row
edit (Edit.slug v) f = record f { slug = v }
edit (Edit.title v) f = record f { title = v }
edit (Edit.tags v) f = record f { tags = v }
edit (Edit.statement v) f = record f { statement_md = v }
edit (Edit.constraints v) f = record f { constraints_md = v }
edit (Edit.difficulty d) f = record f { difficulty = d }
edit (Edit.published b) f = record f { is_published = b }
edit Edit.add_starter f =
    starter_rows (λ rows. rows ++ record { language_id = pos 71; code = "" } ∷ []) f
edit (Edit.starter_language i l) f =
    starter_rows (set_row i (λ s. record s { language_id = pos l })) f
edit (Edit.starter_code i v) f = starter_rows (set_row i (λ s. record s { code = v })) f
edit (Edit.remove_starter i) f = starter_rows (remove_row i) f
edit Edit.add_case f =
    case_rows
      (λ rows.
        rows
        ++ record {
          input = "";
          expected_output = "";
          is_sample = false;
          order = pos (length f.test_cases);
        }
          ∷ [])
      f
edit (Edit.case_input i v) f = case_rows (set_row i (λ t. record t { input = v })) f
edit (Edit.case_expected i v) f = case_rows (set_row i (λ t. record t { expected_output = v })) f
edit (Edit.case_sample i b) f = case_rows (set_row i (λ t. record t { is_sample = b })) f
edit (Edit.remove_case i) f = case_rows (remove_row i) f

-- The page: `left` says that the router has been sent to the list of problems.
pub record EditPage : Type 0 where
  pub id : String
  pub form : Form
  pub error : Option String
  pub busy : Bool
  pub left : Bool

unfoldable pub is_new : EditPage → Bool
is_new s = str_eq s.id "new"

-- The answer to the request that fills the form; a body without `problem` throws.
unfoldable pub load_answered : Fetched FullProblem → EditPage → EditPage
unfolding form_of
load_answered r s = elim (request r) [
  | received v ↦ elim v [
    | some p ↦ record s { form = form_of p }
    | none ↦ record s { error = some "load failed" }
  ]
  | api_error status text ↦ record s { error = some text }
  | failed ↦ record s { error = some "load failed" }
]

-- The request that `save` makes.
pub data SaveRequest : Type 0 where
  post_problem : ProblemData → SaveRequest
  put_problem : String → ProblemData → SaveRequest

unfoldable pub save : EditPage → SaveRequest × EditPage
unfolding is_new payload
save s = (
  if is_new s
      then SaveRequest.post_problem (payload s.form)
      else SaveRequest.put_problem s.id (payload s.form),
  record s { busy = true; error = none },
)

unfoldable pub save_answered : {B : Type 0} → Fetched B → EditPage → EditPage
save_answered r s = elim (request r) [
  | received v ↦ record s { left = true; busy = false }
  | api_error status text ↦ record s { error = some text; busy = false }
  | failed ↦ record s { error = some "save failed"; busy = false }
]
