-- ===== src/Web/Screen.antt =====
-- What is shown of a submission: the panel of results on the page of a problem
-- (platform/frontend/app/problems/[slug]/page.tsx), and the page of the submission
-- (app/submissions/[id]/page.tsx).
use judge.Base.{
  ℕ, zero, suc, String, Bool, true, false, List, Option, none, some, map, or_else, truthy,
}
use judge.Schema.{SubmissionStatus, ℤ, pos, negsuc}
use judge.Problems.{RunView}
use judge.Submissions.{CaseView, SubmissionView, ProblemRef}
use judge.Editor.{Page, SubmissionDetail}
use judge.Web.Labels.{LangInfo, lang_by_id}

-- `order + 1`
unfoldable pub next : ℤ → ℤ
next (pos n) = pos (suc n)
next (negsuc zero) = pos 0
next (negsuc (suc n)) = negsuc n

-- One line of the list of cases.
pub record CaseLine : Type 0 where
  pub number : ℤ
  pub status : SubmissionStatus
  pub runtime_ms : Option ℕ
  pub is_sample : Bool

unfoldable pub case_line : CaseView → CaseLine
unfolding next
case_line c = record {
  number = next c.order;
  status = c.status;
  runtime_ms = c.runtime_ms;
  is_sample = c.is_sample;
}

-- The line above it: without a runtime the memory is not shown either.
pub record Summary : Type 0 where
  pub status : SubmissionStatus
  pub passed : ℕ
  pub total : ℕ
  pub runtime_memory : Option (ℕ × ℕ)

abbrev runtime_memory_of : Option ℕ → Option ℕ → Option (ℕ × ℕ)
runtime_memory_of none memory_kb = none
runtime_memory_of (some t) memory_kb = some (t, or_else memory_kb 0)

unfoldable pub detail_summary : SubmissionDetail → Summary
detail_summary d = record {
  status = d.status;
  passed = d.passed_count;
  total = d.total_count;
  runtime_memory = runtime_memory_of d.runtime_ms d.memory_kb;
}

-- What a run shows: texts that are empty have no box.
pub record RunLines : Type 0 where
  pub description : String
  pub time : Option String
  pub memory : Option ℕ
  pub compile_output : Option String
  pub stdout : Option String
  pub stderr : Option String

unfoldable pub run_lines : RunView → RunLines
run_lines r = record {
  description = r.status.description;
  time = truthy r.time;
  memory = r.memory;
  compile_output = truthy (some r.compile_output);
  stdout = truthy (some r.stdout);
  stderr = truthy (some r.stderr);
}

pub data Panel : Type 0 where
  error_text : String → Panel
  submission_lines : Summary → List CaseLine → Panel
  run_output : RunLines → Panel
  in_progress hint : Panel

-- `ResultPanel`: the first of its parts that applies.
unfoldable pub result_panel : Page → Panel
unfolding detail_summary case_line run_lines
result_panel s = elim (truthy s.error) [
  | some text ↦ error_text text
  | none ↦ elim s.submission [
    | some d ↦ submission_lines (detail_summary d) (map case_line d.cases)
    | none ↦ elim s.run_result [
      | some r ↦ run_output (run_lines r)
      | none ↦ elim s.busy [ true ↦ in_progress | false ↦ hint ]
    ]
  ]
]

-- The page of a submission, once there is one.
pub record SubmissionScreen : Type 0 where
  pub problem : Option ProblemRef
  pub summary : Summary
  pub language : Option LangInfo
  pub username : Option String
  pub source : Option String
  pub cases : List CaseLine

unfoldable pub submission_screen : SubmissionView → SubmissionScreen
unfolding case_line
submission_screen v = record {
  problem = v.item.problem;
  summary = record {
    status = v.item.status;
    passed = v.item.passed_count;
    total = v.item.total_count;
    runtime_memory = runtime_memory_of v.item.runtime_ms v.item.memory_kb;
  };
  language = lang_by_id v.item.language_id;
  username = v.item.username;
  source = truthy v.source_code;
  cases = map case_line v.cases;
}
