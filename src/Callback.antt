-- ===== src/Callback.antt =====
-- platform/backend/src/routes/internal.ts. The handler has no `try`: what it throws is a rejected
-- promise, which express does not see.
pub mod Scoring
pub mod Signed
pub mod Score
pub mod Graded
pub mod Handler
pub mod Delivery
pub mod Settled
pub mod Verdict
pub mod Race
pub mod Kept
pub mod Late
pub mod Ended
pub mod Interleaved
pub mod Progress
pub mod Bounds
use Prim.Native.String.{len}
use judge.Base.{
  ℕ, ◌+◌, String, Bool, true, false, not, ◌&&◌, ◌||◌, List, [], ◌∷◌, Option, none, some, map, foldl,
  any, every, filter, length, max_of, or_else, truthy, str_eq, is_key, leb, ltb, ◌==◌,
  if◌then◌else◌,
}
use mathlib.Core.Option
use judge.Schema.{
  Db, Submission, SubmissionCase, SubmissionStatus, Contest, ContestProblem, ContestParticipant,
}
use judge.Prisma.{Prisma, find_first}
use judge.Http.{
  Thrown, other_error, Result, ok, throws, Action, pure, gets, throw_if, modify, ◌>>=◌, ◌>>◌,
}
use judge.Grader.{judge0_status_to_verdict, combine_verdicts, is_final_verdict, is_ac}
use judge.Judge0.{Base64}
use judge.Submit.Signing.{Crypto, signature}
unfoldable pub use judge.Callback.Scoring.{
  points_of, later, score_of, is_participant, participant, accepted_in, write_score,
  contest_problems_of, score_in, update_contest_score,
}

-- What the client sees: a status with no body, or nothing, where the promise was rejected.
pub data Outcome : Type 0 where
  ended : ℕ → Outcome
  rejected : Thrown → Outcome

pub record Query : Type 0 where
  pub sub_id : Option String
  pub case_id : Option String
  pub sig : Option String

-- The JSON that Judge0 sends; a member that is missing or null is `none`.
pub record Body : Type 0 where
  pub status_id : Option ℕ
  pub time : Option String
  pub memory : Option ℕ
  pub stdout : Option String
  pub stderr : Option String
  pub compile_output : Option String

-- `Math.round(parseFloat(time) * 1000)`
abbrev pub Rounding : Type 0
Rounding = String → ℕ

-- `fromB64`: null for what is missing or empty
from_b64_or_null : Base64 → Option String → Option String
from_b64_or_null base64 o = Option.map base64.decode (truthy o)

-- The columns that the handler writes into the case.
unfoldable pub graded_case : Base64 → Rounding → Body → SubmissionCase → SubmissionCase
unfolding from_b64_or_null
graded_case base64 to_ms body c = record c {
  status = judge0_status_to_verdict (or_else body.status_id 13);
  runtime_ms = Option.map to_ms body.time;
  memory_kb = body.memory;
  stdout = from_b64_or_null base64 body.stdout;
  stderr = from_b64_or_null base64 body.stderr;
  compile_output = from_b64_or_null base64 body.compile_output;
}

-- `n || null`
abbrev pub non_zero : ℕ → Option ℕ
non_zero n = if n == 0 then none else some n

-- What a submission becomes: complete, or only with a new count.
unfoldable pub finished : List SubmissionCase → ℕ → ℕ → Submission → Submission
finished cases passed now s = record s {
  status = combine_verdicts (map (λ (c : SubmissionCase). c.status) cases);
  passed_count = passed;
  runtime_ms = non_zero (max_of (λ (c : SubmissionCase). or_else c.runtime_ms 0) cases);
  memory_kb = non_zero (max_of (λ (c : SubmissionCase). or_else c.memory_kb 0) cases);
  finished_at = some now;
}

-- `cases.filter((c) => c.status === 'AC').length`
abbrev pub passed_of : List SubmissionCase → ℕ
passed_of cases = length (filter (λ (c : SubmissionCase). is_ac c.status) cases)

abbrev pub all_done : List SubmissionCase → Bool
all_done cases = every (λ (c : SubmissionCase). is_final_verdict c.status) cases

abbrev pub is_case : String → String → SubmissionCase → Bool
is_case sub_id case_id c = str_eq c.submission_id sub_id && str_eq c.test_case_id case_id

-- The update of the submission by what was read of its cases.
unfoldable pub settle : List SubmissionCase → ℕ → Submission → Submission
unfolding finished
settle cases now s =
    let passed = passed_of cases in
    if all_done cases then finished cases passed now s else record s { passed_count = passed }

module _ ⦃prisma : Prisma⦄ where
  -- `submissionCase.update`
  unfoldable pub write_case : Base64 → Rounding → Body → SubmissionCase → Db → Db
  unfolding graded_case
  write_case base64 to_ms body c db = record db {
    submission_cases =
        prisma.modify (λ (d : SubmissionCase). str_eq d.id c.id) (graded_case base64 to_ms body)
          db.submission_cases;
  }

  -- `submissionCase.findMany`
  unfoldable pub cases_of_submission : String → Db → List SubmissionCase
  cases_of_submission sub_id db =
      prisma.find_many (λ (c : SubmissionCase). str_eq c.submission_id sub_id) db.submission_cases

  unfoldable pub write_submission : String → List SubmissionCase → ℕ → Db → Db
  unfolding settle
  write_submission sub_id cases now db = record db {
    submissions =
        prisma.modify (λ (s : Submission). str_eq s.id sub_id) (settle cases now) db.submissions;
  }

  -- After the update: where all is done and accepted, the contest's score.
  unfoldable pub score_after : List SubmissionCase → Submission → ℕ → Db → Db
  unfolding update_contest_score
  score_after cases s now db =
      let scored = λ (c : String). update_contest_score c s.user_id now db in
      elim (truthy s.contest_id) [
        | none ↦ db
        | some c ↦ if all_done cases && is_ac s.status then scored c else db
      ]

  -- What "Recompute submission state" writes: the submission, as `update` returns it, and the score.
  unfoldable pub recomputed : String → List SubmissionCase → ℕ → Db → Db
  unfolding write_submission score_after
  recomputed sub_id cases now db =
      let db' = write_submission sub_id cases now db in
      elim (find_first (λ (s : Submission). str_eq s.id sub_id) db'.submissions) [
        | none ↦ db'
        | some s ↦ score_after cases s now db'
      ]

  unfoldable pub recompute : String → List SubmissionCase → ℕ → Action ℕ
  unfolding recomputed
  recompute sub_id cases now = do
    missing ← gets (λ db. not (any (λ (s : Submission). str_eq s.id sub_id) db.submissions))
    throw_if missing other_error
    modify (recomputed sub_id cases now)
    pure 204

  -- The handler once the signature has been accepted.
  unfoldable pub grade : Base64 → Rounding → Body → String → String → ℕ → Action ℕ
  unfolding write_case cases_of_submission recompute
  grade base64 to_ms body sub_id case_id now db =
      elim (find_first (is_case sub_id case_id) db.submission_cases) [
        | none ↦ (ok 404, db)
        | some c ↦
            let db' = write_case base64 to_ms body c db in
            recompute sub_id (cases_of_submission sub_id db') now db'
      ]

-- `timingSafeEqual` of the UTF-8 bytes: it throws where the lengths differ.
unfoldable pub timing_safe_equal : String → String → Result Bool
timing_safe_equal a b = if len a == len b then ok (str_eq a b) else throws other_error

-- The guard of the handler: the two identifiers where the signature fits, `none` for a 401.
unfoldable pub check_signature : Crypto → Option String → Query → Result (Option (String × String))
unfolding timing_safe_equal
check_signature crypto secret q = elim (truthy q.sub_id) [
  | none ↦ ok none
  | some sub_id ↦ elim (truthy q.case_id) [
    | none ↦ ok none
    | some case_id ↦ elim (truthy q.sig) [
      | none ↦ ok none
      | some sig ↦ elim (timing_safe_equal sig (signature crypto secret sub_id case_id)) [
        | throws e ↦ throws e
        | ok fits ↦ ok (if fits then some (sub_id, case_id) else none)
      ]
    ]
  ]
]

unfoldable pub outcome : Result ℕ × Db → Outcome × Db
outcome (ok code, db) = (ended code, db)
outcome (throws e, db) = (rejected e, db)

-- PUT /judge0-callback
unfoldable pub callback :
    ⦃prisma : Prisma⦄
    → Crypto
    → Option String
    → Base64
    → Rounding
    → Query
    → Body
    → ℕ
    → Db
    → Outcome × Db
unfolding check_signature grade outcome
callback crypto secret base64 to_ms q body now db = elim (check_signature crypto secret q) [
  | throws e ↦ (rejected e, db)
  | ok none ↦ (ended 401, db)
  | ok (some (sub_id, case_id)) ↦ outcome (grade base64 to_ms body sub_id case_id now db)
]
