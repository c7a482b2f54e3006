-- ===== src/Callback/Graded.antt =====
-- After a callback the submission agrees with its cases.
use judge.Base.{
  ℕ, String, ◌≡◌, sym, ◌∙◌, inl, inr, Bool, true, not, ◌&&◌, ◌||◌, List, map, filter, every,
  every-perm, count-perm, length-filter, map-perm, Permᴰ, str_eq, ◌==◌, Option-cases, arith,
}
use judge.Schema.{Db, Submission, SubmissionCase, SubmissionStatus}
use judge.Prisma.{Prisma, find_first}
use judge.Prisma.Rows.{every-modify_where}
use judge.Grader.{rank, combine_verdicts, is_final_verdict, is_ac}
use judge.Grader.Combine.{combine_verdicts-perm}
use judge.Callback.{
  finished, passed_of, all_done, settle, write_submission, update_contest_score, score_in,
  write_score, score_after, recomputed,
}

abbrev pub statuses : List SubmissionCase → List SubmissionStatus
statuses cases = map (λ (c : SubmissionCase). c.status) cases

-- The submission counts its accepted cases, and has their combined verdict once all are final.
abbrev pub agrees : List SubmissionCase → Submission → Bool
agrees cases s =
    s.passed_count == passed_of cases
    && (not (all_done cases) || rank s.status == rank (combine_verdicts (statuses cases)))

abbrev pub of_submission : String → SubmissionCase → Bool
of_submission id c = str_eq c.submission_id id

-- Every row of the submission agrees with the cases of the submission.
abbrev pub IsGraded : String → Db → Type 0
IsGraded id db =
    every
      (λ (s : Submission).
        not (str_eq s.id id) || agrees (filter (of_submission id) db.submission_cases) s)
      db.submissions
    ≡ true

passed_of-perm : (cs ds : List SubmissionCase) → Permᴰ cs ds → passed_of cs ≡ passed_of ds
passed_of-perm cs ds h =
    length-filter (λ (c : SubmissionCase). is_ac c.status) cs
    ∙ count-perm (λ (c : SubmissionCase). is_ac c.status) h
    ∙ sym (length-filter (λ (c : SubmissionCase). is_ac c.status) ds)

agrees-settle :
    (cs ds : List SubmissionCase) (now : ℕ) (s : Submission)
    → Permᴰ cs ds
    → agrees ds (settle cs now s) ≡ true
unfolding settle finished
agrees-settle cs ds now s h = ground (
  arith,
  passed_of-perm cs ds h,
  every-perm (λ (c : SubmissionCase). is_final_verdict c.status) h,
  combine_verdicts-perm (statuses cs) (statuses ds) (map-perm (λ (c : SubmissionCase). c.status) h),
)

module _ ⦃prisma : Prisma⦄ where
  -- Scoring a contest touches no submission and no case.
  pub submissions-score_after :
      (cases : List SubmissionCase) (s : Submission) (now : ℕ) (db : Db)
      → (score_after cases s now db).submissions ≡ db.submissions
  unfolding score_after update_contest_score score_in write_score
  submissions-score_after cases s now db = ground arith

  pub submission_cases-score_after :
      (cases : List SubmissionCase) (s : Submission) (now : ℕ) (db : Db)
      → (score_after cases s now db).submission_cases ≡ db.submission_cases
  unfolding score_after update_contest_score score_in write_score
  submission_cases-score_after cases s now db = ground arith

  pub submissions-recomputed :
      (id : String) (cases : List SubmissionCase) (now : ℕ) (db : Db)
      → (recomputed id cases now db).submissions
        ≡ prisma.modify (λ (s : Submission). str_eq s.id id) (settle cases now) db.submissions
  unfolding recomputed write_submission
  submissions-recomputed id cases now db =
      elim (Option-cases (
        find_first (λ (s : Submission). str_eq s.id id)
          (write_submission id cases now db).submissions)) [
            | inl e ↦ rw (e, recomputed)
            | inr (s, e) ↦
                rw (e, recomputed)
                  (submissions-score_after cases s now (write_submission id cases now db))
          ]

  pub submission_cases-recomputed :
      (id : String) (cases : List SubmissionCase) (now : ℕ) (db : Db)
      → (recomputed id cases now db).submission_cases ≡ db.submission_cases
  unfolding recomputed write_submission
  submission_cases-recomputed id cases now db =
      elim (Option-cases (
        find_first (λ (s : Submission). str_eq s.id id)
          (write_submission id cases now db).submissions)) [
            | inl e ↦ rw (e, recomputed)
            | inr (s, e) ↦
                rw (e, recomputed)
                  (submission_cases-score_after cases s now (write_submission id cases now db))
          ]

  -- The rows of the submission are written from the cases that were read.
  pub IsGraded-recomputed :
      (id : String) (cases : List SubmissionCase) (now : ℕ) (db : Db)
      → Permᴰ cases (filter (of_submission id) db.submission_cases)
      → IsGraded id (recomputed id cases now db)
  IsGraded-recomputed id cases now db h =
      rw (submissions-recomputed, submission_cases-recomputed)
        (every-modify_where (agrees (filter (of_submission id) db.submission_cases))
          (λ s. str_eq s.id id) (settle cases now) db.submissions
          (λ s. agrees-settle cases (filter (of_submission id) db.submission_cases) now s h))
