-- ===== src/Callback/Verdict.antt =====
-- The verdict of a submission whose results have all arrived.
use judge.Base.{
  ℕ, String, ◌≡◌, refl, ap, ◌∙◌, Bool, true, not, ◌&&◌, ◌||◌, List, [], ◌∷◌, map, filter, any,
  every, count, All, Permᴰ, map-perm, count-perm, every-perm, str_eq, eq_iff, ◌==◌, arith,
  every_both, every-true, length-filter, count-map, every-map,
}
use judge.Schema.{Db, Submission, SubmissionCase, SubmissionStatus}
use judge.Prisma.{Prisma}
use judge.Grader.{rank, combine_verdicts, is_ac, is_final_verdict}
use judge.Grader.Combine.{combine_verdicts-perm, rank_injective}
use judge.Judge0.{Base64}
use judge.Callback.{Body, Rounding}
use judge.Callback.Graded.{of_submission, IsGraded, statuses, agrees}
use judge.Callback.Delivery.{IsKeyed, verdict, has_verdict, deliver}
use judge.Callback.Settled.{
  tests_of, HasCase, covered, has_verdict-delivered, tests_of-delivered, covered-delivered,
  IsGraded-delivered,
}

-- The submission counts the accepted verdicts, and has their combination if all are final.
abbrev pub has_result : List SubmissionStatus → Submission → Bool
has_result vs s =
    s.passed_count == count is_ac vs
    && (not (every is_final_verdict vs) || rank s.status == rank (combine_verdicts vs))

agrees-statuses :
    (cases : List SubmissionCase) (s : Submission) → agrees cases s ≡ has_result (statuses cases) s
agrees-statuses cases s = rw (
  length-filter (λ (c : SubmissionCase). is_ac c.status) cases,
  count-map (λ (c : SubmissionCase). c.status) is_ac cases,
  every-map (λ (c : SubmissionCase). c.status) is_final_verdict cases,
)

pub has_result-perm :
    (vs ws : List SubmissionStatus) (s : Submission)
    → Permᴰ vs ws
    → has_result vs s ≡ has_result ws s
has_result-perm vs ws s p =
    rw (count-perm is_ac p, every-perm is_final_verdict p, combine_verdicts-perm vs ws p)

module _ (id : String) (key : String → String) (results : String → Body) where
  unfoldable pub own_verdict : SubmissionCase → Bool
  own_verdict d = not (of_submission id d) || rank d.status == rank (verdict results d.test_case_id)

  own_verdict_of_covered :
      (ts : List String) (d : SubmissionCase)
      → (not (any (λ u. str_eq u d.test_case_id) ts) || own_verdict d) ≡ true
      → covered id ts d ≡ true
      → own_verdict d ≡ true
  unfolding own_verdict
  own_verdict_of_covered ts d p q = ground arith

  own_verdicts :
      (ts : List String) (cases : List SubmissionCase)
      → All (λ u. every (has_verdict id key results u) cases ≡ true) ts
      → every (λ d. not (any (λ t. str_eq t d.test_case_id) ts) || own_verdict d) cases ≡ true
  unfolding own_verdict
  own_verdicts [] cases h = every-true _ (λ d. refl) cases
  own_verdicts (t ∷ ts) cases (h, hs) =
      every_both (has_verdict id key results t)
        (λ d. not (any (λ t. str_eq t d.test_case_id) ts) || own_verdict d)
        (λ d. not (any (λ t. str_eq t d.test_case_id) (t ∷ ts)) || own_verdict d)
        (λ d p q. ground (arith, eq_iff t d.test_case_id, eq_iff d.test_case_id t)) cases h
        (own_verdicts ts cases hs)

  pub statuses_eq :
      (cases : List SubmissionCase)
      → every own_verdict cases ≡ true
      → statuses (filter (of_submission id) cases)
        ≡ map
            (verdict results)
            (map (λ (c : SubmissionCase). c.test_case_id) (filter (of_submission id) cases))
  unfolding own_verdict
  statuses_eq [] h = refl
  statuses_eq (d ∷ cases) h =
      ground (arith, statuses_eq cases, rank_injective d.status (verdict results d.test_case_id))

  module _ ⦃prisma : Prisma⦄ (base64 : Base64) (to_ms : Rounding) (now : ℕ) where
    -- Let the submission exist, and let each of its rows be the only one for its test case, with
    -- an identifier that no other row has. When the results of some of these test cases that cover
    -- all of its rows have been delivered, in any order and with any repetition, the submission
    -- counts the accepted results of all its test cases, and has their combined verdict if every
    -- result is final.
    pub deliver_settles :
        (t : String) (ts : List String) (db : Db)
        → any (λ (s : Submission). str_eq s.id id) db.submissions ≡ true
        → IsKeyed id key results db.submission_cases
        → All (HasCase id db) (t ∷ ts)
        → every (covered id (t ∷ ts)) db.submission_cases ≡ true
        → every
            (λ (s : Submission).
              not (str_eq s.id id) || has_result (map (verdict results) (tests_of id db)) s)
            (deliver id key results base64 to_ms now (t ∷ ts) db).submissions
          ≡ true
    deliver_settles t ts db th keyed hs cover =
        every_both (λ s. not (str_eq s.id id) || agrees own s)
          (λ s. not (str_eq s.id id) || agrees own s)
          (λ s. not (str_eq s.id id) || has_result (map (verdict results) (tests_of id db)) s)
          (λ s p q. rw (← same s) p) db'.submissions graded graded
      where
        db' : Db
        db' = deliver id key results base64 to_ms now (t ∷ ts) db

        own : List SubmissionCase
        own = filter (of_submission id) db'.submission_cases

        graded : IsGraded id db'
        graded = IsGraded-delivered id key results base64 to_ms now t ts db th hs

        settled : every own_verdict db'.submission_cases ≡ true
        settled =
            every_both (λ d. not (any (λ u. str_eq u d.test_case_id) (t ∷ ts)) || own_verdict d)
              (covered id (t ∷ ts)) own_verdict (own_verdict_of_covered (t ∷ ts))
              db'.submission_cases
              (own_verdicts (t ∷ ts) db'.submission_cases
                (has_verdict-delivered id key results base64 to_ms now (t ∷ ts) db keyed hs))
              (covered-delivered id key results base64 to_ms now (t ∷ ts) (t ∷ ts) db hs cover)

        same :
            (s : Submission) → agrees own s ≡ has_result (map (verdict results) (tests_of id db)) s
        same s =
            agrees-statuses own s
            ∙ ap (λ vs. has_result vs s) (statuses_eq db'.submission_cases settled)
            ∙ has_result-perm _ _ s (
                map-perm (verdict results)
                  (tests_of-delivered id key results base64 to_ms now (t ∷ ts) db hs))
