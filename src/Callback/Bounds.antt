-- ===== src/Callback/Bounds.antt =====
-- The count of passed cases against the number of cases.
use judge.Base.{
  ℕ, ◌≡◌, refl, String, Bool, true, not, ◌||◌, Option, some, List, [], ◌∷◌, filter, every, length,
  str_eq, ◌==◌, length-filter, count-le-length, arith, every_both, if◌then◌else◌, ltb,
}
use judge.Schema.{Db, Submission, SubmissionCase}
use judge.Prisma.{Prisma}
use judge.Grader.{is_ac}
use judge.Judge0.{Base64}
use judge.Submit.Signing.{Crypto}
use judge.Callback.{Body, Rounding, Query, callback, ended, passed_of}
use judge.Callback.Graded.{of_submission, agrees}
use judge.Callback.Handler.{callback-IsGraded}

-- The count is at most the number of cases, and smaller unless every case is accepted.
abbrev pub in_bounds : List SubmissionCase → Submission → Bool
in_bounds cases s =
    if every (λ (c : SubmissionCase). is_ac c.status) cases
    then s.passed_count == length cases
    else ltb s.passed_count (length cases)

passed_of_cases :
    (cases : List SubmissionCase)
    → (if every (λ (c : SubmissionCase). is_ac c.status) cases
        then passed_of cases == length cases
        else ltb (passed_of cases) (length cases))
      ≡ true
passed_of_cases [] = refl
passed_of_cases (c ∷ cases) = ground (
  arith,
  passed_of_cases cases,
  length-filter (λ (c : SubmissionCase). is_ac c.status) cases,
  count-le-length (λ (c : SubmissionCase). is_ac c.status) cases,
)

agrees-in_bounds :
    (cases : List SubmissionCase) (s : Submission)
    → agrees cases s ≡ true
    → in_bounds cases s ≡ true
agrees-in_bounds cases s h = ground (arith, passed_of_cases cases)

-- After a callback that is answered by 204, the submission that it names counts at most as many
-- passed cases as it has cases, and exactly as many where all of them are accepted.
pub callback_bounded :
    ⦃prisma : Prisma⦄
    → (crypto : Crypto) (secret : Option String) (base64 : Base64) (to_ms : Rounding) (q : Query)
      (body : Body) (now : ℕ) (db db' : Db) (id : String)
    → q.sub_id ≡ some id
    → callback crypto secret base64 to_ms q body now db ≡ (ended 204, db')
    → every
        (λ (s : Submission).
          not (str_eq s.id id) || in_bounds (filter (of_submission id) db'.submission_cases) s)
        db'.submissions
      ≡ true
callback_bounded crypto secret base64 to_ms q body now db db' id named e =
    let cases = filter (of_submission id) db'.submission_cases in
    let graded = callback-IsGraded crypto secret base64 to_ms q body now db db' id named e in
    every_both (λ s. not (str_eq s.id id) || agrees cases s)
      (λ s. not (str_eq s.id id) || agrees cases s) (λ s. not (str_eq s.id id) || in_bounds cases s)
      (λ s p r. ground (arith, agrees-in_bounds cases s)) db'.submissions graded graded
