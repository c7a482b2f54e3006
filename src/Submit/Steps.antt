-- ===== src/Submit/Steps.antt =====
-- What `submit` answers and leaves behind when it stops early.
use judge.Base.{
  not, ◌==◌, if◌then◌else◌, ℕ, String, ◌≡◌, ◌<◌, true, false, List, Option, none, some, map, length,
  arith, any, str_eq, eq_iff, ◌∙◌,
}
use judge.Schema.{Db, Problem, Submission, SubmissionCase}
use judge.Prisma.{Prisma}
use judge.Prisma.Rows.{any-insert}
use judge.Http.{Reply, json, validation, error_json, error_handler, Thrown, ok, throws, respond}
use judge.Auth.{AuthUser, auth_required}
use judge.Judge0.{Base64, Service, submit_batch}
use judge.Problems.{find_problem}
use judge.Submit.{
  SubmitBody, Env, submit_checks, submit, create_submission, new_submission, dangling, cases_of,
  batch_item, record_tokens, case_rows, tokens_clash, write_tokens,
}
use judge.Submit.Signing.{Crypto}

module _ ⦃prisma : Prisma⦄ (crypto : Crypto) (env : Env) (base64 : Base64) (service : Service)
    (slug id : String) (case_id : ℕ → String) (now : ℕ) (db : Db) where
  -- What is wrong with a request: it is anonymous, its body does not fit the schema, there is no
  -- such problem, or the problem has no test case.
  abbrev pub objection : Option AuthUser → Option SubmitBody → Option (Reply String)
  objection none body = some (error_json 401 "authentication required")
  objection (some u) none = some validation
  objection (some u) (some b) =
      if not (submit_checks b) then some validation else elim (find_problem db slug) [
        | none ↦ some (error_json 404 "problem not found")
        | some p ↦
            if length (cases_of db p) == 0
            then some (error_json 400 "problem has no test cases")
            else none
      ]

  module _ (u : AuthUser) (b : SubmitBody) (p : Problem) (valid : submit_checks b ≡ true)
      (found : find_problem db slug ≡ some p) (some_cases : 0 < length (cases_of db p))
      (clean : dangling (new_submission id now u p b (length (cases_of db p))) db ≡ false) where
    -- the database after the first write
    abbrev pub created : Db
    created = record db {
      submissions =
          prisma.insert (new_submission id now u p b (length (cases_of db p))) db.submissions;
    }

    -- Where Judge0 does not answer to the valid submission of a signed-in user, to a problem with
    -- test cases, the error is the reply, and the submission that was created stays in the database:
    -- pending, and without a case.
    pub submit_abandoned :
        (e : Thrown)
        → submit_batch base64 service (map (batch_item crypto env id b) (cases_of db p)) ≡ throws e
        → submit crypto env base64 service (some u) slug (some b) id case_id now db
          ≡ (error_handler e, created)
    unfolding submit respond auth_required create_submission
    submit_abandoned e h = ground (arith, valid, found, some_cases, clean, h)

    created_there : any (λ (s : Submission). str_eq s.id id) created.submissions ≡ true
    unfolding new_submission
    created_there =
        any-insert (λ s. str_eq s.id id) (new_submission id now u p b (length (cases_of db p)))
          db.submissions
        ∙ ground (arith, eq_iff id id)

    -- A signed-in user submits a body that fits the schema to a problem with test cases, and the
    -- user, the problem and the contest exist. If Judge0 gives tokens that make rows for the test
    -- cases, and none of them is in use, the answer is 202, and the database is the one with the
    -- new submission, its tokens and its rows written.
    pub submit_accepted :
        (tokens : List (Option String)) (rows : List SubmissionCase)
        → submit_batch base64 service (map (batch_item crypto env id b) (cases_of db p)) ≡ ok tokens
        → case_rows id case_id 0 (cases_of db p) tokens ≡ some rows
        → tokens_clash db.submission_cases rows ≡ false
        → submit crypto env base64 service (some u) slug (some b) id case_id now db ≡ (
          json 202 id,
          write_tokens id (map (λ (c : SubmissionCase). c.judge0_token) rows) rows created,
        )
    unfolding submit respond auth_required create_submission record_tokens
    submit_accepted tokens rows h r k =
        ground (arith, valid, found, some_cases, clean, h, r, k, created_there)
