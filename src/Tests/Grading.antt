-- ===== src/Tests/Grading.antt =====
-- Grading, from the submission to the score.
use judge.Base.{
  All, ◌+◌, if◌then◌else◌, sort, ◌≤◌, ◌≡◌, ◌≢◌, refl, ◌⊎◌, inl, inr, String, Bool, true, false, not,
  ◌&&◌, ◌||◌, List, [], ◌∷◌, some, map, any, every, filter, count, Permᴰ, str_eq, eq_iff, ◌==◌, leb,
  Bool-cases, arith,
}
use judge.Schema.{
  Db, Submission, TestCase, SubmissionCase, ContestProblem, pending, running, ac, wa, tle,
}
use judge.Prisma.Memory.{memory}
use judge.Http.{json, error_handler, other_error, ok}
use judge.Grader.{rank, combine_verdicts}
use judge.Grader.Combine.{combine_verdicts_worst}
use judge.Judge0.{submit_batch}
use judge.Submit.{
  SubmitBody, insert_all, submit, submit_checks, write_tokens, case_rows, tokens_clash, new_case,
  cases_of, dangling, new_submission,
}
use judge.Submit.Signing.{signature}
use judge.Pipeline.Submitted.{submit_running, submit_stranded}
use judge.Callback.{
  is_case, callback, check_signature, grade, ended, rejected, score_in, is_participant,
}
use judge.Callback.Signed.{IsSigned, callback-IsSigned}
use judge.Callback.Graded.{of_submission}
use judge.Callback.Bounds.{in_bounds, callback_bounded}
use judge.Callback.Delivery.{IsKeyed, deliver, verdict}
use judge.Callback.Verdict.{has_result}
use judge.Callback.Score.{str_eq_comm, earned, score_in-earned}
use judge.Pipeline.EndToEnd.{submit_settles}
use judge.Problems.{find_problem}
use judge.Text.{min_length, max_length}
use judge.Tests.World.{
  plain64, crypto, digest, env, service, down, to_ms, alice, db, waiting, case1, contest, results,
  submission, sum_problem, sample_case, hidden_case, case_ids,
}

abbrev pub key_for : Bool → Bool → String
key_for true _ = "k1"
key_for false true = "k2"
key_for false false = ""

abbrev pub key : String → String
key t = key_for (str_eq t "t1") (str_eq t "t2")

pub db-IsKeyed : IsKeyed "s1" key results db.submission_cases
db-IsKeyed t = elim (Bool-cases (str_eq t "t1")) [
  | inl a ↦ rw ((eq_iff t "t1").0 a) refl
  | inr a ↦ elim (Bool-cases (str_eq t "t2")) [
    | inl b ↦ rw ((eq_iff t "t2").0 b) refl
    | inr b ↦ rw (str_eq_comm "t1" t, str_eq_comm "t2" t, a, b, every, is_case) refl
  ]
]

callback-IsSigned_example :
    (callback ⦃prisma = memory⦄ crypto
        (some "secret")
        plain64
        to_ms
        (record { sub_id = some "s1"; case_id = some "t1"; sig = some digest })
        (results "t1")
        700
        db
      ≡ (ended 401, db))
    ⊎ (callback ⦃prisma = memory⦄ crypto
          (some "secret")
          plain64
          to_ms
          (record { sub_id = some "s1"; case_id = some "t1"; sig = some digest })
          (results "t1")
          700
          db
        ≡ (rejected other_error, db))
    ⊎ ((s : String) × (c : String) × IsSigned crypto
          (some "secret")
          (record { sub_id = some "s1"; case_id = some "t1"; sig = some digest })
          s
          c)
callback-IsSigned_example =
    callback-IsSigned ⦃prisma = memory⦄ crypto (some "secret") plain64 to_ms
      (record { sub_id = some "s1"; case_id = some "t1"; sig = some digest }) (results "t1") 700 db

abbrev after_first : Db
after_first =
    (callback ⦃prisma = memory⦄ crypto (some "secret") plain64 to_ms
      (record { sub_id = some "s1"; case_id = some "t1"; sig = some digest }) (results "t1") 700
      db).1

callback_bounded_example :
    every
      (λ (s : Submission).
        not (str_eq s.id "s1")
        || in_bounds (filter (of_submission "s1") after_first.submission_cases) s)
      after_first.submissions
    ≡ true
unfolding callback check_signature grade memory signature
callback_bounded_example =
    callback_bounded ⦃prisma = memory⦄ crypto (some "secret") plain64 to_ms
      (record { sub_id = some "s1"; case_id = some "t1"; sig = some digest }) (results "t1") 700 db
      after_first "s1" refl refl

each_once :
    (k : String)
    → count
        (λ (p : ContestProblem). str_eq p.contest_id contest.id && str_eq p.problem_id k)
        db.contest_problems
      ≤ 1
each_once k = ground arith

score_in-earned_example :
    (any
        (is_participant "c1" "u1")
        (score_in ⦃prisma = memory⦄ "u1" 700 contest db).contest_participants
      ≡ true)
    × (every
          (λ p. not (is_participant "c1" "u1" p) || p.score == earned db contest "u1")
          (score_in ⦃prisma = memory⦄ "u1" 700 contest db).contest_participants
        ≡ true)
score_in-earned_example = score_in-earned ⦃prisma = memory⦄ db contest "u1" 700 each_once

combine_verdicts_worst_example :
    (any (λ w. rank w == rank (combine_verdicts (ac ∷ wa ∷ tle ∷ []))) (ac ∷ wa ∷ tle ∷ []) ≡ true)
    × (every (λ w. leb (rank w) (rank (combine_verdicts (ac ∷ wa ∷ tle ∷ [])))) (ac ∷ wa ∷ tle ∷ [])
        ≡ true)
combine_verdicts_worst_example = combine_verdicts_worst ac (wa ∷ tle ∷ [])

not_empty : (s : String) → str_eq s "" ≡ false → s ≢ ""
not_empty s h e = ground (arith, eq_iff s "")

abbrev pub rows : List SubmissionCase
rows =
    record case1 { id = "case0"; submission_id = "s2"; judge0_token = "tok1" }
    ∷ record case1 {
      id = "case1";
      submission_id = "s2";
      test_case_id = "t2";
      judge0_token = "tok2";
    }
    ∷ []

abbrev pending_row : Submission
pending_row = record waiting { id = "s2"; status = pending; judge0_tokens = []; created_at = 500 }

-- the database after the creation of the submission
abbrev pub created_db : Db
created_db = record db { submissions = pending_row ∷ db.submissions }

abbrev pub new_key : String → String
new_key t = if str_eq t "t1" then "case0" else if str_eq t "t2" then "case1" else ""

pub created_db-IsKeyed :
    IsKeyed "s2" new_key results
      (write_tokens ⦃prisma = memory⦄ "s2" ("tok1" ∷ "tok2" ∷ []) rows created_db).submission_cases
unfolding write_tokens insert_all memory
created_db-IsKeyed t = elim (Bool-cases (str_eq t "t1")) [
  | inl a ↦ rw ((eq_iff t "t1").0 a) refl
  | inr a ↦ elim (Bool-cases (str_eq t "t2")) [
    | inl b ↦ rw ((eq_iff t "t2").0 b) refl
    | inr b ↦ rw (str_eq_comm "t1" t, str_eq_comm "t2" t, a, b, every, is_case) refl
  ]
]

submit_settles_example :
    every
      (λ (s : Submission).
        not (str_eq s.id "s2") || has_result (map (verdict results) ("t1" ∷ "t2" ∷ [])) s)
      (deliver "s2" new_key results ⦃prisma = memory⦄ plain64 to_ms 700
        ("t2" ∷ "t1" ∷ [])
        (write_tokens ⦃prisma = memory⦄ "s2" ("tok1" ∷ "tok2" ∷ []) rows created_db)).submissions
    ≡ true
unfolding case_rows new_case
submit_settles_example =
    submit_settles ⦃prisma = memory⦄ "s2" case_ids (sample_case ∷ hidden_case ∷ [])
      (some "tok1" ∷ some "tok2" ∷ []) rows ("tok1" ∷ "tok2" ∷ []) created_db refl refl refl refl
      new_key results plain64 to_ms 700 "t2" ("t1" ∷ []) created_db-IsKeyed (Permᴰ.swap refl refl)

s2_named : ◌≢◌ {A = String} "s2" ""
s2_named e = ground (arith, eq_iff "s2" "")

cases_named : All (λ (tc : TestCase). tc.id ≢ "") (sample_case ∷ hidden_case ∷ [])
cases_named = (λ e. ground (arith, eq_iff "t1" ""), (λ e. ground (arith, eq_iff "t2" ""), tt))

abbrev is_running : Submission → Bool
is_running s = rank s.status == rank running

abbrev waits_for : SubmissionCase → Bool
waits_for c = str_eq c.judge0_token "tok2"

submit_running_example :
    let (r, db') =
      submit ⦃prisma = memory⦄ crypto env plain64 service
        (some alice)
        "sum"
        (some submission)
        "s2"
        case_ids
        500
        db in
    (r ≡ json 202 "s2")
    × (count is_running db'.submissions ≡ 1 + count is_running db.submissions)
    × (count waits_for db'.submission_cases ≡ 1 + count waits_for db.submission_cases)
    × (db' ≡ record db { submissions = db'.submissions; submission_cases = db'.submission_cases })
unfolding submit_checks min_length max_length find_problem memory cases_of dangling new_submission
    submit_batch tokens_clash sort
submit_running_example =
    submit_running ⦃prisma = memory⦄ crypto env plain64 service "sum" "s2" case_ids 500 db alice
      submission sum_problem refl refl (omega arith) refl s2_named cases_named refl
      ("tok1" ∷ "tok2" ∷ []) is_running waits_for (λ items h. refl) refl refl

submit_stranded_example :
    let (r, db') =
      submit ⦃prisma = memory⦄ crypto env plain64 down
        (some alice)
        "sum"
        (some submission)
        "s2"
        case_ids
        500
        db in
    (r ≡ error_handler other_error)
    × (count is_running db'.submissions ≡ 0 + count is_running db.submissions)
    × (db' ≡ record db { submissions = db'.submissions })
    × (grade ⦃prisma = memory⦄ plain64 to_ms (results "t1") "s2" "t1" 900 db' ≡ (ok 404, db'))
unfolding submit_checks min_length max_length find_problem memory cases_of dangling new_submission
    submit_batch sort
submit_stranded_example =
    submit_stranded ⦃prisma = memory⦄ crypto env plain64 down "sum" "s2" case_ids 500 db alice
      submission sum_problem refl refl (omega arith) refl s2_named cases_named refl other_error
      is_running (λ items h. refl) refl to_ms (results "t1") "t1" 900

abbrev blank : SubmitBody
blank = record submission { source_code = "" }
