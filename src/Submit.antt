-- ===== src/Submit.antt =====
-- POST /:slug/submit of platform/backend/src/routes/problems.ts, in the steps between which other
-- requests are served: the submission is created, Judge0 is asked, the tokens are recorded.
pub mod Signing
pub mod Steps
use judge.Base.{
  ℕ, suc, String, Bool, true, false, not, ◌&&◌, ◌||◌, List, [], ◌∷◌, Option, none, some, map, any,
  length, or_else, str_eq, leb, ltb, if◌then◌else◌,
}
use mathlib.Core.Option
use judge.Text.{min_length, max_length, concat}
use judge.Schema.{
  Db, User, Problem, TestCase, Contest, Submission, SubmissionCase, pending, running,
}
use judge.Prisma.{Prisma}
use judge.Http.{
  Reply, json, http_error, other_error, Action, pure, lift, gets, or_throw, zod_parse, throw_if,
  modify, respond, ◌>>=◌, ◌>>◌,
}
use judge.Auth.{AuthUser, auth_required}
use judge.Judge0.{Base64, Service, Judge0Submission, submit_batch}
use judge.Problems.{find_problem, not_found, in_order}
use Signing.{Crypto, signature}

pub record SubmitBody : Type 0 where
  pub language_id : ℕ
  pub source_code : String
  pub contest_id : Option String

-- `submitSchema`
unfoldable pub submit_checks : SubmitBody → Bool
submit_checks b =
    leb 1 b.language_id && min_length 1 b.source_code && max_length 64000 b.source_code

-- `JUDGE0_CALLBACK_SECRET` and `PUBLIC_BACKEND_URL`
pub record Env : Type 0 where
  pub callback_secret : Option String
  pub public_url : Option String

unfoldable pub new_submission : String → ℕ → AuthUser → Problem → SubmitBody → ℕ → Submission
new_submission id now u p b total = record {
  id = id;
  user_id = u.id;
  problem_id = p.id;
  contest_id = b.contest_id;
  language_id = b.language_id;
  source_code = b.source_code;
  status = pending;
  runtime_ms = none;
  memory_kb = none;
  passed_count = 0;
  total_count = total;
  judge0_tokens = [];
  error_message = none;
  created_at = now;
  finished_at = none;
}

-- What the database refuses of a new submission: a user, problem or contest that is not there, and a
-- language that does not fit the column, of 32 bits.
unfoldable pub dangling : Submission → Db → Bool
dangling s db =
    ltb 2147483647 s.language_id
    || not (any (λ (u : User). str_eq u.id s.user_id) db.users)
    || not (any (λ (p : Problem). str_eq p.id s.problem_id) db.problems)
    || elim s.contest_id [
      | none ↦ false
      | some c ↦ not (any (λ (k : Contest). str_eq k.id c) db.contests)
    ]

-- one element of the batch
unfoldable pub batch_item : Crypto → Env → String → SubmitBody → TestCase → Judge0Submission
batch_item crypto env id b tc = record {
  language_id = b.language_id;
  source_code = b.source_code;
  stdin = some tc.input;
  expected_output = some tc.expected_output;
  cpu_time_limit = none;
  memory_limit = none;
  callback_url = some (
      concat (
        or_else env.public_url "http://backend:4000"
        ∷ "/api/internal/judge0-callback?subId="
        ∷ id
        ∷ "&caseId="
        ∷ tc.id
        ∷ "&sig="
        ∷ signature crypto env.callback_secret id tc.id
        ∷ []));
}

unfoldable pub new_case : String → String → TestCase → String → SubmissionCase
new_case case_id id tc token = record {
  id = case_id;
  submission_id = id;
  test_case_id = tc.id;
  judge0_token = token;
  status = pending;
  runtime_ms = none;
  memory_kb = none;
  stdout = none;
  stderr = none;
  compile_output = none;
}

-- The rows for the tokens, the i-th for the i-th test case; `none` where a token is missing, or
-- where there are more tokens than test cases, so that `testCases[i]!.id` throws.
unfoldable pub case_rows :
    String → (ℕ → String) → ℕ → List TestCase → List (Option String) → Option (List SubmissionCase)
unfolding new_case
case_rows id case_id i cases [] = some []
case_rows id case_id i [] (t ∷ tokens) = none
case_rows id case_id i (tc ∷ cases) (none ∷ tokens) = none
case_rows id case_id i (tc ∷ cases) (some t ∷ tokens) =
    Option.map (◌∷◌ (new_case (case_id i) id tc t)) (case_rows id case_id (suc i) cases tokens)

-- `judge0Token` is unique: among the new rows, and against those that are there.
abbrev pub same_token : SubmissionCase → SubmissionCase → Bool
same_token c d = str_eq d.judge0_token c.judge0_token

unfoldable pub tokens_clash : List SubmissionCase → List SubmissionCase → Bool
tokens_clash old [] = false
tokens_clash old (c ∷ cs) = any (same_token c) old || any (same_token c) cs || tokens_clash old cs

module _ ⦃prisma : Prisma⦄ where
  unfoldable pub insert_all : {R : Type 0} → List R → List R → List R
  insert_all [] rows = rows
  insert_all (r ∷ more) rows = prisma.insert r (insert_all more rows)

  unfoldable pub cases_of : Db → Problem → List TestCase
  cases_of db p =
      prisma.order_by in_order
        (prisma.find_many (λ (t : TestCase). str_eq t.problem_id p.id) db.test_cases)

  -- up to the first `await` of another service
  unfoldable pub create_submission : Submission → Action (Unit {0})
  unfolding dangling
  create_submission s = do
    bad ← gets (dangling s)
    throw_if bad other_error
    modify (λ db. record db { submissions = prisma.insert s db.submissions })

  -- the transaction after Judge0 has answered
  unfoldable pub write_tokens : String → List String → List SubmissionCase → Db → Db
  unfolding insert_all
  write_tokens id tokens rows db = record db {
    submissions =
        prisma.modify (λ (s : Submission). str_eq s.id id)
          (λ s. record s { judge0_tokens = tokens; status = running }) db.submissions;
    submission_cases = insert_all rows db.submission_cases;
  }

  unfoldable pub record_tokens :
      String → (ℕ → String) → List TestCase → List (Option String) → Action (Unit {0})
  record_tokens id case_id cases tokens = do
    rows ← or_throw (case_rows id case_id 0 cases tokens) other_error
    missing ← gets (λ db. not (any (λ (s : Submission). str_eq s.id id) db.submissions))
    clash ← gets (λ db. tokens_clash db.submission_cases rows)
    throw_if (missing || clash) other_error
    modify (write_tokens id (map (λ (c : SubmissionCase). c.judge0_token) rows) rows)

  unfoldable pub submit :
      Crypto
      → Env
      → Base64
      → Service
      → Option AuthUser
      → String
      → Option SubmitBody
      → String
      → (ℕ → String)
      → ℕ
      → Db
      → Reply String × Db
  unfolding auth_required
  submit crypto env base64 service user slug body id case_id now = auth_required user λ u.
      respond do
        b ← zod_parse submit_checks body
        p ← or_throw (← gets (λ db. find_problem db slug)) not_found
        cases ← gets (λ db. cases_of db p)
        throw_if (leb (length cases) 0) (http_error 400 "problem has no test cases")
        create_submission (new_submission id now u p b (length cases))
        tokens ← lift (submit_batch base64 service (map (batch_item crypto env id b) cases))
        record_tokens id case_id cases tokens
        pure (json 202 id)
