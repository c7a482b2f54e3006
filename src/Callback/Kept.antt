-- ===== src/Callback/Kept.antt =====
-- What holds between the steps of callbacks that run at once.
use judge.Base.{
  ℕ, ◌≡◌, refl, subst, String, Bool, true, false, not, ◌&&◌, ◌||◌, List, ◌∷◌, ◌++◌, map, any, every,
  some, All, Permᴰ, str_eq, eq_iff, ◌==◌, arith, every_both, any-around,
}
use judge.Schema.{Db, Submission, SubmissionCase, SubmissionStatus}
use judge.Prisma.{Prisma, find_first}
use judge.Prisma.Rows.{every-modify, view-modify}
use judge.Grader.{rank, combine_verdicts, is_final_verdict}
use judge.Judge0.{Base64}
use judge.Callback.{Body, Rounding, is_case, write_case, all_done, graded_case, grade}
use judge.Callback.Graded.{of_submission, statuses}
use judge.Callback.Delivery.{
  IsKeyed, iff, verdict, has_verdict, submission_cases-grade, key_of_found, IsKeyed-grade,
  has_verdict-grade_self,
}
use judge.Callback.Settled.{tests_of}
use judge.Callback.Verdict.{own_verdict}
use judge.Callback.Race.{Job, arrived, stored, looked, Race}

abbrev pub is_arrived : String → Job → Bool
is_arrived t (arrived u) = str_eq u t
is_arrived t (stored u) = false
is_arrived t (looked cases) = false

-- The callback has still to read the cases.
abbrev pub is_early : Job → Bool
is_early (arrived u) = true
is_early (stored u) = true
is_early (looked cases) = false

-- The callback has read all results.
abbrev pub is_complete : Job → Bool
is_complete (arrived u) = false
is_complete (stored u) = false
is_complete (looked cases) = all_done cases

-- The submission has the combination of the verdicts.
abbrev pub has_combined : String → List SubmissionStatus → Submission → Bool
has_combined id vs s = not (str_eq s.id id) || rank s.status == rank (combine_verdicts vs)

module _ (id : String) (key : String → String) (results : String → Body) where
  -- A row of the submission has its verdict, or it is not final and its callback has arrived.
  abbrev pub is_expected : List Job → SubmissionCase → Bool
  is_expected jobs d =
      own_verdict id key results d
      || not (is_final_verdict d.status) && any (is_arrived d.test_case_id) jobs

  -- What a callback has read is all there is, if every result in it is final.
  abbrev pub IsTrue : List SubmissionStatus → Job → Type 0
  IsTrue vs (arrived t) = Unit
  IsTrue vs (stored t) = Unit
  IsTrue vs (looked cases) = all_done cases ≡ true → Permᴰ (statuses cases) vs

  pub record Kept (tests : List String) (s : Race) : Type 0 where
    pub keyed : IsKeyed id key results s.db.submission_cases
    pub same_tests : Permᴰ (tests_of id s.db) tests
    pub expected : every (is_expected s.jobs) s.db.submission_cases ≡ true
    pub read : All (IsTrue (map (verdict results) tests)) s.jobs
    pub progress :
        (any is_early s.jobs
          || any is_complete s.jobs
          || every (has_combined id (map (verdict results) tests)) s.db.submissions)
        ≡ true

  module _ ⦃prisma : Prisma⦄ (base64 : Base64) (to_ms : Rounding) (tests : List String) where
    module _ (t : String) (c : SubmissionCase) (db : Db)
        (found : find_first (is_case id t) db.submission_cases ≡ some c) where
      -- The callback's first step writes the cases that the whole callback does.
      same_cases :
          (now : ℕ)
          → (grade base64 to_ms (results t) id t now db).1.submission_cases
            ≡ (write_case base64 to_ms (results t) c db).submission_cases
      unfolding write_case
      same_cases now = submission_cases-grade id key results base64 to_ms now t c db found

      pub stored-IsKeyed :
          IsKeyed id key results db.submission_cases
          → IsKeyed id key results (write_case base64 to_ms (results t) c db).submission_cases
      stored-IsKeyed k =
          subst (IsKeyed id key results) (same_cases 0)
            (IsKeyed-grade id key results base64 to_ms 0 t c db found k)

      stored_self :
          IsKeyed id key results db.submission_cases
          → every
              (has_verdict id key results t)
              (write_case base64 to_ms (results t) c db).submission_cases
            ≡ true
      stored_self k =
          subst (λ cases. every (has_verdict id key results t) cases ≡ true) (same_cases 0)
            (has_verdict-grade_self id key results base64 to_ms 0 t c db found k)

      pub stored-tests :
          Permᴰ (tests_of id (write_case base64 to_ms (results t) c db)) (tests_of id db)
      unfolding write_case graded_case
      stored-tests =
          view-modify (λ d. d.test_case_id) (of_submission id) (λ d. str_eq d.id c.id)
            (graded_case base64 to_ms (results t)) db.submission_cases (λ d. refl) (λ d. refl)

      module _ (before after : List Job) where
        -- a row of another test case is expected as before, without this callback
        abbrev awaited : SubmissionCase → Bool
        awaited d =
            iff (str_eq d.id (key t)) (is_case id t d)
            && (is_case id t d || is_expected (before ++ stored t ∷ after) d)

        awaited_before :
            (d : SubmissionCase)
            → iff (str_eq d.id (key t)) (is_case id t d) ≡ true
            → is_expected (before ++ arrived t ∷ after) d ≡ true
            → awaited d ≡ true
        unfolding own_verdict
        awaited_before d h e = ground (
          arith,
          any-around (is_arrived d.test_case_id) (arrived t) before after,
          any-around (is_arrived d.test_case_id) (stored t) before after,
          eq_iff t d.test_case_id,
          eq_iff d.test_case_id t,
        )

        expected_after :
            (d : SubmissionCase)
            → has_verdict id key results t d ≡ true
            → awaited d ≡ true
            → is_expected (before ++ stored t ∷ after) d ≡ true
        unfolding own_verdict
        expected_after d h e = ground (arith, eq_iff d.test_case_id t)

        pub stored-expected :
            IsKeyed id key results db.submission_cases
            → every (is_expected (before ++ arrived t ∷ after)) db.submission_cases ≡ true
            → every
                (is_expected (before ++ stored t ∷ after))
                (write_case base64 to_ms (results t) c db).submission_cases
              ≡ true
        unfolding write_case graded_case
        stored-expected k e =
            every_both (has_verdict id key results t) awaited
              (is_expected (before ++ stored t ∷ after)) expected_after _ (stored_self k)
              (every-modify awaited (λ d. str_eq d.id c.id) (graded_case base64 to_ms (results t))
                db.submission_cases
                (λ d w h. ground (
                  arith,
                  key_of_found id key results base64 to_ms 0 t c db found k,
                  eq_iff d.id c.id,
                  eq_iff d.id (key t),
                ))
                (every_both (λ d. iff (str_eq d.id (key t)) (is_case id t d))
                  (is_expected (before ++ arrived t ∷ after)) awaited awaited_before
                  db.submission_cases (k t) e))
