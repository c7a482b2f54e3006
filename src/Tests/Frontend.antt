-- ===== src/Tests/Frontend.antt =====
-- The page of a problem.
use judge.Base.{ℕ, refl, String, [], ◌∷◌, Option, none, some}
use judge.Schema.{running, ac, pos, easy}
use judge.Problems.{ProblemView}
use judge.Client.{unreachable}
use judge.Editor.{Page, SubmissionDetail, loaded, on_run, run_answered}
use judge.Editor.Steps.{Reach, Step, IsSettled, Reach-IsSettled}

abbrev pub view : ProblemView
view = record {
  id = "p1";
  slug = "sum";
  title = "Sum";
  difficulty = easy;
  statement_md = "Add.";
  constraints_md = none;
  starter_codes = record { language_id = pos 71; code = "# here" } ∷ [];
  tags = [];
  sample_test_cases = record { id = "t1"; input = "2 2"; expected_output = "4" } ∷ [];
}

abbrev pub no_drafts : ℕ → Option String
no_drafts l = none

abbrev pub page : Page
page = loaded view 71 no_drafts

abbrev pub graded : SubmissionDetail
graded = record {
  id = "s1";
  status = ac;
  passed_count = 2;
  total_count = 2;
  runtime_ms = some 10;
  memory_kb = some 256;
  cases = [];
}

abbrev pub half_graded : SubmissionDetail
half_graded = record graded { status = running; passed_count = 1 }

ran : Reach page (run_answered unreachable [] (on_run page))
unfolding loaded on_run
ran =
    Reach.next (Reach.next Reach.here (Step.click_run page refl))
      (Step.run_ends (on_run page) [] unreachable refl)

Reach-IsSettled_example : IsSettled (run_answered unreachable [] (on_run page))
Reach-IsSettled_example = Reach-IsSettled view 71 no_drafts ran
