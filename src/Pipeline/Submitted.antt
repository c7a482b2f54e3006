-- ===== src/Pipeline/Submitted.antt =====
-- POST /:slug/submit of platform/backend/src/routes/problems.ts as a whole: what Judge0 is asked, and
-- which rows are there in the end, where it answers and where it does not.
use judge.Base.{
  ℕ, suc, ◌+◌, ◌<◌, String, ◌≡◌, ◌≢◌, refl, ◌∙◌, Bool, true, false, List, [], ◌∷◌, none, some, map,
  any, count, length, All, str_eq, eq_iff, arith, or_else, if◌then◌else◌,
}
use judge.Text.{concat}
use judge.Schema.{
  Db, Problem, TestCase, Submission, SubmissionCase, SubmissionStatus, pending, running,
}
use judge.Prisma.{Prisma}
use judge.Prisma.Rows.{count-insert, count-modify}
use judge.Http.{json, error_handler, Thrown, ok, throws}
use judge.Auth.{AuthUser}
use judge.Judge0.{Base64, Service, Judge0Submission, submit_batch}
use judge.Problems.{find_problem}
use judge.Submit.{
  SubmitBody, Env, submit_checks, submit, new_submission, dangling, cases_of, batch_item, case_rows,
  tokens_clash, write_tokens,
}
use judge.Submit.Signing.{Crypto, signature}
use judge.Submit.Steps.{submit_accepted, submit_abandoned}
use judge.Admin.Replace.{count-insert_all}
use judge.Callback.{Body, Rounding, check_signature, grade}
use judge.Callback.Graded.{of_submission}
use judge.Callback.Signed.{check_signature-signature}
use judge.Pipeline.{early_callback_lost}

-- The rows that wait for the results, one for each test case, with its token.
abbrev pub waiting_rows :
    String → (ℕ → String) → ℕ → List TestCase → List String → List SubmissionCase
waiting_rows id case_id i (tc ∷ cases) (t ∷ tokens) =
    record {
      id = case_id i;
      submission_id = id;
      test_case_id = tc.id;
      judge0_token = t;
      status = pending;
      runtime_ms = none;
      memory_kb = none;
      stdout = none;
      stderr = none;
      compile_output = none;
    }
    ∷ waiting_rows id case_id (suc i) cases tokens
waiting_rows id case_id i _ _ = []

case_rows-waiting_rows :
    (id : String) (case_id : ℕ → String) (i : ℕ) (cases : List TestCase) (tokens : List String)
    → length tokens ≡ length cases
    → case_rows id case_id i cases (map some tokens) ≡ some (waiting_rows id case_id i cases tokens)
unfolding case_rows
case_rows-waiting_rows id case_id i [] [] h = refl
case_rows-waiting_rows id case_id i [] (t ∷ tokens) h = absurd (omega arith)
case_rows-waiting_rows id case_id i (tc ∷ cases) [] h = absurd (omega arith)
case_rows-waiting_rows id case_id i (tc ∷ cases) (t ∷ tokens) h =
    rw (case_rows-waiting_rows id case_id (suc i) cases tokens (omega arith)) refl

tokens-waiting_rows :
    (id : String) (case_id : ℕ → String) (i : ℕ) (cases : List TestCase) (tokens : List String)
    → length tokens ≡ length cases
    → map (λ (c : SubmissionCase). c.judge0_token) (waiting_rows id case_id i cases tokens) ≡ tokens
tokens-waiting_rows id case_id i [] [] h = refl
tokens-waiting_rows id case_id i [] (t ∷ tokens) h = absurd (omega arith)
tokens-waiting_rows id case_id i (tc ∷ cases) [] h = absurd (omega arith)
tokens-waiting_rows id case_id i (tc ∷ cases) (t ∷ tokens) h =
    rw (tokens-waiting_rows id case_id (suc i) cases tokens (omega arith)) refl

-- A change of the rows of one identifier, where there are none.
count_absent :
    (id : String) (q : Submission → Bool) (f : Submission → Submission) (rows : List Submission)
    → any (λ (s : Submission). str_eq s.id id) rows ≡ false
    → count (λ s. q (if str_eq s.id id then f s else s)) rows ≡ count q rows
count_absent id q f [] h = refl
count_absent id q f (s ∷ rows) h = ground (arith, count_absent id q f rows)

module _ (crypto : Crypto) (env : Env) (id : String) (b : SubmitBody) where
  -- What Judge0 is asked for a test case: to run the program on its input, to compare with its expected
  -- output, and to report to a URL whose signature the server's own guard accepts.
  abbrev pub Asks : TestCase → Judge0Submission → Type 0
  Asks tc i =
      (i.language_id ≡ b.language_id)
      × (i.source_code ≡ b.source_code)
      × (i.stdin ≡ some tc.input)
      × (i.expected_output ≡ some tc.expected_output)
      × ((sig : String) × (i.callback_url
            ≡ some (
                concat (
                  or_else env.public_url "http://backend:4000"
                  ∷ "/api/internal/judge0-callback?subId="
                  ∷ id
                  ∷ "&caseId="
                  ∷ tc.id
                  ∷ "&sig="
                  ∷ sig
                  ∷ [])))
          × (check_signature crypto env.callback_secret
                (record { sub_id = some id; case_id = some tc.id; sig = some sig })
              ≡ ok (some (id, tc.id))))

  -- one item for each test case, in this order
  abbrev pub AllAsk : List TestCase → List Judge0Submission → Type 0
  AllAsk [] [] = Unit
  AllAsk (tc ∷ cases) (i ∷ items) = Asks tc i × AllAsk cases items
  AllAsk _ _ = ⊥

  batch-AllAsk :
      (cases : List TestCase)
      → id ≢ ""
      → All (λ (tc : TestCase). tc.id ≢ "") cases
      → AllAsk cases (map (batch_item crypto env id b) cases)
  unfolding batch_item
  batch-AllAsk [] h hs = tt
  batch-AllAsk (tc ∷ cases) h (k, ks) = (
    (
      refl,
      refl,
      refl,
      refl,
      (
        signature crypto env.callback_secret id tc.id,
        refl,
        check_signature-signature crypto env.callback_secret id tc.id h k,
      ),
    ),
    batch-AllAsk cases h ks,
  )

module _ ⦃prisma : Prisma⦄ (crypto : Crypto) (env : Env) (base64 : Base64) (service : Service)
    (slug id : String) (case_id : ℕ → String) (now : ℕ) (db : Db) (u : AuthUser) (b : SubmitBody)
    (p : Problem) (valid : submit_checks b ≡ true) (found : find_problem db slug ≡ some p)
    (some_cases : 0 < length (cases_of db p))
    (clean : dangling (new_submission id now u p b (length (cases_of db p))) db ≡ false)
    (named : id ≢ "") (cases_named : All (λ (tc : TestCase). tc.id ≢ "") (cases_of db p))
    (new : any (λ (s : Submission). str_eq s.id id) db.submissions ≡ false) where
  -- the submission in the database, with a status and tokens
  abbrev pub row : SubmissionStatus → List String → Submission
  row status tokens = record {
    id = id;
    user_id = u.id;
    problem_id = p.id;
    contest_id = b.contest_id;
    language_id = b.language_id;
    source_code = b.source_code;
    status = status;
    runtime_ms = none;
    memory_kb = none;
    passed_count = 0;
    total_count = length (cases_of db p);
    judge0_tokens = tokens;
    error_message = none;
    created_at = now;
    finished_at = none;
  }

  abbrev started : List String → Submission → Submission
  started tokens s = record s { judge0_tokens = tokens; status = running }

  -- A signed-in user submits a body that fits the schema to a problem with test cases; the user, the
  -- problem and the contest exist, the language fits its column, the identifiers are not empty and that
  -- of the submission is new. If Judge0 answers a batch that asks for each test case, in order, to run
  -- the program on its input and to report to a URL that the callback's guard lets in, by a token for
  -- each, and no token is in use: the answer is 202 with the identifier, and in the database there is,
  -- beside what was there, one submission, running, with these tokens, and for each test case one row
  -- that waits, with its token.
  pub submit_running :
      (tokens : List String) (q : Submission → Bool) (c : SubmissionCase → Bool)
      → ((items : List Judge0Submission)
          → AllAsk crypto env id b (cases_of db p) items
          → submit_batch base64 service items ≡ ok (map some tokens))
      → length tokens ≡ length (cases_of db p)
      → tokens_clash db.submission_cases (waiting_rows id case_id 0 (cases_of db p) tokens) ≡ false
      → let (r, db') = submit crypto env base64 service (some u) slug (some b) id case_id now db in
        (r ≡ json 202 id)
        × (count q db'.submissions
            ≡ (if q (row running tokens) then 1 else 0) + count q db.submissions)
        × (count c db'.submission_cases
            ≡ count c (waiting_rows id case_id 0 (cases_of db p) tokens)
              + count c db.submission_cases)
        × (db'
            ≡ record db { submissions = db'.submissions; submission_cases = db'.submission_cases })
  unfolding write_tokens new_submission
  submit_running tokens q c answers enough unused =
      let rows = waiting_rows id case_id 0 (cases_of db p) tokens in
      let run =
        submit_accepted crypto env base64 service slug id case_id now db u b p valid found
          some_cases clean (map some tokens) rows
          (answers _ (batch-AllAsk crypto env id b (cases_of db p) named cases_named))
          (case_rows-waiting_rows id case_id 0 (cases_of db p) tokens enough) unused in
      rw (run, tokens-waiting_rows id case_id 0 (cases_of db p) tokens enough)
        (
          refl,
          count-modify q (λ s. str_eq s.id id) (started tokens)
                (prisma.insert (new_submission id now u p b (length (cases_of db p)))
                  db.submissions)
              ∙ count-insert (λ s. q (if str_eq s.id id then started tokens s else s))
                  (new_submission id now u p b (length (cases_of db p))) db.submissions
              ∙ ground (arith, eq_iff id id, count_absent id q (started tokens) db.submissions new),
          count-insert_all c rows db.submission_cases,
          refl,
        )

  -- A signed-in user submits a body that fits the schema to a problem with test cases; the user, the
  -- problem and the contest exist, the language fits its column, and the identifier of the submission
  -- is new, with no rows of cases. If Judge0 fails for a batch that asks for each test case, in order, to
  -- run the program and to report to a URL that the callback's guard lets in: the error is the answer;
  -- the submission is in the database, pending, beside what was there, and nothing else has changed;
  -- and whatever callback comes for it is answered 404 and changes nothing, so that it stays pending.
  pub submit_stranded :
      (e : Thrown) (q : Submission → Bool)
      → ((items : List Judge0Submission)
          → AllAsk crypto env id b (cases_of db p) items
          → submit_batch base64 service items ≡ throws e)
      → any (of_submission id) db.submission_cases ≡ false
      → (to_ms : Rounding) (body : Body) (t : String) (later : ℕ)
      → let (r, db') = submit crypto env base64 service (some u) slug (some b) id case_id now db in
        (r ≡ error_handler e)
        × (count q db'.submissions ≡ (if q (row pending []) then 1 else 0) + count q db.submissions)
        × (db' ≡ record db { submissions = db'.submissions })
        × (grade base64 to_ms body id t later db' ≡ (ok 404, db'))
  unfolding new_submission
  submit_stranded e q fails none_there to_ms body t later =
      let run =
        submit_abandoned crypto env base64 service slug id case_id now db u b p valid found
          some_cases clean e
          (fails _ (batch-AllAsk crypto env id b (cases_of db p) named cases_named)) in
      rw run (
        refl,
        count-insert q (new_submission id now u p b (length (cases_of db p))) db.submissions,
        refl,
        early_callback_lost base64 to_ms body id t later _ none_there,
      )
