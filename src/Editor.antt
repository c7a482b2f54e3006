-- ===== src/Editor.antt =====
-- The page of a problem, platform/frontend/app/problems/[slug]/page.tsx: its state, the requests
-- and timers that it has started, and what their ends do. The slug is fixed; the drafts of the
-- browser's storage are kept by language.
pub mod Steps
pub mod Polling
pub mod Drafts
use judge.Base.{
  ℕ, String, Bool, true, false, not, ◌||◌, List, [], ◌∷◌, Option, none, some, or_else, head?, ◌==◌,
  if◌then◌else◌,
}
use mathlib.Core.Option
use judge.Schema.{SubmissionStatus, pending, running, pos}
use judge.Schema.{leb_ℤ}
use judge.Problems.{ProblemView, StarterView, RunView}
use judge.Submissions.{CaseView}
use judge.Client.{Fetched, Answer, received, api_error, failed, request}

pub record SubmissionDetail : Type 0 where
  pub id : String
  pub status : SubmissionStatus
  pub passed_count : ℕ
  pub total_count : ℕ
  pub runtime_ms : Option ℕ
  pub memory_kb : Option ℕ
  pub cases : List CaseView

-- What the page waits for: the answer to a run, to a submit or to a poll, or the timer of a poll.
pub data Work : Type 0 where
  run submit : Work
  poll timer : String → Work

pub data BottomTab : Type 0 where
  cases_tab result_tab : BottomTab

pub record Page : Type 0 where
  pub problem : ProblemView
  pub language_id : ℕ
  pub code : String
  pub stdin : String
  pub bottom_tab : BottomTab
  pub run_result : Option RunView
  pub submission : Option SubmissionDetail
  pub busy : Bool
  pub error : Option String
  pub work : List Work
  pub drafts : ℕ → Option String

-- `localStorage.setItem`
unfoldable pub save_draft : ℕ → String → (ℕ → Option String) → ℕ → Option String
save_draft l code drafts m = if m == l then some code else drafts m

-- The code of the first starter in the language.
unfoldable pub starter_in : ℕ → List StarterView → Option String
starter_in l [] = none
starter_in l (s ∷ ss) =
    if leb_ℤ s.language_id (pos l)
    then (if leb_ℤ (pos l) s.language_id then some s.code else starter_in l ss)
    else starter_in l ss

-- `draft ?? starter?.code ?? ''`
unfoldable pub code_in : ℕ → Page → String
unfolding starter_in
code_in l s = or_else (s.drafts l) (or_else (starter_in l s.problem.starter_codes) "")

-- The problem has arrived, on a page that has nothing yet but its language; the effects that follow
-- save the code.
unfoldable pub loaded : ProblemView → ℕ → (ℕ → Option String) → Page
unfolding starter_in save_draft
loaded p l drafts =
    let code = or_else (drafts l) (or_else (starter_in l p.starter_codes) "") in
    record {
      problem = p;
      language_id = l;
      code = code;
      stdin = or_else (Option.map (λ t. t.input) (head? p.sample_test_cases)) "";
      bottom_tab = cases_tab;
      run_result = none;
      submission = none;
      busy = false;
      error = none;
      work = [];
      drafts = save_draft l code drafts;
    }

-- `setCode`, and the effect that saves the draft
unfoldable pub set_code : String → Page → Page
unfolding save_draft
set_code code s = record s { code = code; drafts = save_draft s.language_id code s.drafts }

-- `setLanguageId`, and the effects: the code of the language is read, the old code is saved under
-- the new language, and then the new code is.
unfoldable pub set_language : ℕ → Page → Page
unfolding save_draft code_in
set_language l s = record s {
  language_id = l;
  code = code_in l s;
  drafts = save_draft l (code_in l s) (save_draft l s.code s.drafts);
}

-- `onRun`, up to its request, and from the answer on: the message is an `ApiError`'s own.
unfoldable pub on_run : Page → Page
on_run s = record s { busy = true; error = none; bottom_tab = result_tab; work = run ∷ s.work }

unfoldable pub run_answered : Fetched RunView → List Work → Page → Page
run_answered r rest s = elim (request r) [
  | received v ↦ record s { run_result = v; submission = none; busy = false; work = rest }
  | api_error status text ↦ record s { error = some text; busy = false; work = rest }
  | failed ↦ record s { error = some "Run failed"; busy = false; work = rest }
]

-- `onSubmit`
unfoldable pub on_submit : Page → Page
on_submit s = record s {
  busy = true;
  error = none;
  bottom_tab = result_tab;
  run_result = none;
  work = submit ∷ s.work;
}

-- The answer starts to poll; `undefined` has no member `submissionId`.
unfoldable pub submit_answered : Fetched String → List Work → Page → Page
submit_answered r rest s = elim (request r) [
  | received v ↦ elim v [
    | some id ↦ record s { work = poll id ∷ rest }
    | none ↦ record s { error = some "Submit failed"; busy = false; work = rest }
  ]
  | api_error status text ↦ record s { error = some text; busy = false; work = rest }
  | failed ↦ record s { error = some "Submit failed"; busy = false; work = rest }
]

-- `submission.status === 'PENDING' || submission.status === 'RUNNING'`
unfoldable pub is_unfinished : SubmissionStatus → Bool
is_unfinished pending = true
is_unfinished running = true
is_unfinished _ = false

-- `pollSubmission`: the answer is shown, and while it is not final a timer starts the next poll.
unfoldable pub poll_answered : String → Fetched SubmissionDetail → List Work → Page → Page
unfolding is_unfinished
poll_answered id r rest s = elim (request r) [
  | received v ↦ elim v [
    | some d ↦
        if is_unfinished d.status
        then record s { submission = some d; work = timer id ∷ rest }
        else record s { submission = some d; busy = false; work = rest }
    | none ↦ record s { busy = false; work = rest }
  ]
  | api_error status text ↦ record s { busy = false; work = rest }
  | failed ↦ record s { busy = false; work = rest }
]

unfoldable pub timer_fired : String → List Work → Page → Page
timer_fired id rest s = record s { work = poll id ∷ rest }
