-- ===== src/Callback/Delivery.antt =====
-- All results of a submission arrive, in any order and perhaps more than once.
use judge.Base.{
  ℕ, String, ◌≡◌, Bool, true, not, ◌&&◌, ◌||◌, List, [], ◌∷◌, some, or_else, any, every, str_eq,
  eq_iff, ◌==◌, arith, if◌then◌else◌, every_both, &&-parts,
}
use judge.Schema.{Db, Submission, SubmissionCase, SubmissionStatus}
use judge.Prisma.{Prisma, find_first}
use judge.Prisma.Rows.{
  find_first_where, find_first-every, every-modify, any-modify, every-modify_where,
}
use judge.Http.{ok}
use judge.Grader.{rank, judge0_status_to_verdict}
use judge.Judge0.{Base64}
use judge.Callback.{
  Body, Rounding, graded_case, recomputed, recompute, grade, write_case, cases_of_submission,
  is_case, settle, finished,
}
use judge.Callback.Graded.{submission_cases-recomputed, submissions-recomputed}

abbrev pub iff : Bool → Bool → Bool
iff a b = if a then b else not b

-- The verdict of the result for a test case.
abbrev pub verdict : (String → Body) → String → SubmissionStatus
verdict results t = judge0_status_to_verdict (or_else (results t).status_id 13)

module _ (id : String) (key : String → String) (results : String → Body) where
  -- The row with the identifier `key t` is the one row of the submission for the test case `t`.
  abbrev pub IsKeyed : List SubmissionCase → Type 0
  IsKeyed cases =
      (t : String)
      → every (λ (d : SubmissionCase). iff (str_eq d.id (key t)) (is_case id t d)) cases ≡ true

  -- The row of `t`, if `d` is it, has the verdict of the result for `t`.
  abbrev pub has_verdict : String → SubmissionCase → Bool
  has_verdict t d = not (is_case id t d) || rank d.status == rank (verdict results t)

  module _ ⦃prisma : Prisma⦄ (base64 : Base64) (to_ms : Rounding) (now : ℕ) where
    -- The callbacks of the test cases `ts`, one after the other.
    unfoldable pub deliver : List String → Db → Db
    deliver [] db = db
    deliver (t ∷ ts) db = deliver ts (grade base64 to_ms (results t) id t now db).1

    -- One callback whose case is found.
    module _ (t : String) (c : SubmissionCase) (db : Db)
        (found : find_first (is_case id t) db.submission_cases ≡ some c) where
      -- It writes the rows with the identifier of `c`, and no other case.
      pub submission_cases-grade :
          (grade base64 to_ms (results t) id t now db).1.submission_cases
          ≡ prisma.modify
              (λ (d : SubmissionCase). str_eq d.id c.id)
              (graded_case base64 to_ms (results t))
              db.submission_cases
      unfolding grade recompute write_case
      submission_cases-grade =
          let db1 = write_case base64 to_ms (results t) c db in
          ground (arith, found, submission_cases-recomputed id (cases_of_submission id db1) now db1)

      pub key_of_found : IsKeyed db.submission_cases → c.id ≡ key t
      key_of_found k = (eq_iff c.id (key t)).0 (
          ground (
            arith,
            find_first_where (is_case id t) db.submission_cases found,
            find_first-every (is_case id t) (λ d. iff (str_eq d.id (key t)) (is_case id t d))
                db.submission_cases (k t) found,
          ))

      pub IsKeyed-grade :
          IsKeyed db.submission_cases
          → IsKeyed (grade base64 to_ms (results t) id t now db).1.submission_cases
      unfolding graded_case
      IsKeyed-grade k u = rw submission_cases-grade (
          every-modify (λ d. iff (str_eq d.id (key u)) (is_case id u d)) (λ d. str_eq d.id c.id)
            (graded_case base64 to_ms (results t)) db.submission_cases (λ d w h. h) (k u))

      -- Afterwards the row of `t` has its verdict,
      pub has_verdict-grade_self :
          IsKeyed db.submission_cases
          → every (has_verdict t) (grade base64 to_ms (results t) id t now db).1.submission_cases
            ≡ true
      unfolding graded_case
      has_verdict-grade_self k =
          every_both (λ d. not (str_eq d.id c.id) || rank d.status == rank (verdict results t))
            (λ d. iff (str_eq d.id (key t)) (is_case id t d)) (has_verdict t)
            (λ d h j. ground (arith, key_of_found k, eq_iff d.id c.id, eq_iff d.id (key t)))
            (grade base64 to_ms (results t) id t now db).1.submission_cases
            (rw submission_cases-grade (
              every-modify_where (λ d. rank d.status == rank (verdict results t))
                (λ d. str_eq d.id c.id) (graded_case base64 to_ms (results t)) db.submission_cases
                (λ d. ground arith)))
            (IsKeyed-grade k t)

      -- and the rows of the other test cases keep theirs.
      pub has_verdict-grade :
          (u : String)
          → IsKeyed db.submission_cases
          → every (has_verdict u) db.submission_cases ≡ true
          → every (has_verdict u) (grade base64 to_ms (results t) id t now db).1.submission_cases
            ≡ true
      unfolding graded_case
      has_verdict-grade u k h = rw submission_cases-grade (
          every_both (λ d. iff (str_eq d.id (key t)) (is_case id t d) && has_verdict u d)
            (λ d. iff (str_eq d.id (key t)) (is_case id t d) && has_verdict u d) (has_verdict u)
            (λ d e f. (&&-parts _ _ e).1) _ both both)
        where
          before :
              every
                (λ d. iff (str_eq d.id (key t)) (is_case id t d) && has_verdict u d)
                db.submission_cases
              ≡ true
          before =
              every_both (λ d. iff (str_eq d.id (key t)) (is_case id t d)) (has_verdict u)
                (λ d. iff (str_eq d.id (key t)) (is_case id t d) && has_verdict u d)
                (λ d e f. ground (arith, e, f)) db.submission_cases (k t) h

          both :
              every
                (λ d. iff (str_eq d.id (key t)) (is_case id t d) && has_verdict u d)
                (prisma.modify
                  (λ (d : SubmissionCase). str_eq d.id c.id)
                  (graded_case base64 to_ms (results t))
                  db.submission_cases)
              ≡ true
          both =
              every-modify (λ d. iff (str_eq d.id (key t)) (is_case id t d) && has_verdict u d)
                (λ d. str_eq d.id c.id) (graded_case base64 to_ms (results t)) db.submission_cases
                (λ d w h. ground (
                  arith,
                  key_of_found k,
                  eq_iff d.id c.id,
                  eq_iff d.id (key t),
                  eq_iff d.test_case_id t,
                  eq_iff d.test_case_id u,
                ))
                before

      pub any-grade :
          (q : SubmissionCase → Bool)
          → ((d : SubmissionCase) → q (graded_case base64 to_ms (results t) d) ≡ q d)
          → any q (grade base64 to_ms (results t) id t now db).1.submission_cases
            ≡ any q db.submission_cases
      any-grade q keep = rw submission_cases-grade (
          any-modify q (λ d. str_eq d.id c.id) (graded_case base64 to_ms (results t))
            db.submission_cases keep)

      -- Where the submission is there, the answer is 204.
      pub grade_204 :
          any (λ (s : Submission). str_eq s.id id) db.submissions ≡ true
          → (grade base64 to_ms (results t) id t now db).0 ≡ ok 204
      unfolding grade recompute write_case
      grade_204 there = ground (arith, found)

      submissions_kept :
          (cases : List SubmissionCase) (db1 : Db)
          → any (λ (s : Submission). str_eq s.id id) (recomputed id cases now db1).submissions
            ≡ any (λ (s : Submission). str_eq s.id id) db1.submissions
      unfolding settle finished
      submissions_kept cases db1 = rw submissions-recomputed (
          any-modify (λ s. str_eq s.id id) (λ s. str_eq s.id id) (settle cases now) db1.submissions
            (λ s. ground arith))

      pub submission-grade :
          any (λ (s : Submission). str_eq s.id id) db.submissions ≡ true
          → any
              (λ (s : Submission). str_eq s.id id)
              (grade base64 to_ms (results t) id t now db).1.submissions
            ≡ true
      unfolding grade recompute write_case
      submission-grade there =
          let db1 = write_case base64 to_ms (results t) c db in
          ground (arith, found, submissions_kept (cases_of_submission id db1) db1)
