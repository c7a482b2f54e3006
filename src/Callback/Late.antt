-- ===== src/Callback/Late.antt =====
-- What a callback reads of the cases while others run.
use judge.Base.{
  ◌≡◌, refl, sym, subst, ◌∙◌, String, true, false, not, ◌||◌, List, [], ◌∷◌, ◌++◌, map, any, every,
  Permᴰ, map-perm, arith, every_both, any-around, every-perm, every-map,
}
use judge.Schema.{Db, SubmissionCase, SubmissionStatus}
use judge.Prisma.{Prisma}
use judge.Prisma.Rows.{every-find_many}
use judge.Grader.{is_final_verdict}
use judge.Callback.{Body, cases_of_submission, all_done}
use judge.Callback.Graded.{of_submission, statuses}
use judge.Callback.Delivery.{verdict}
use judge.Callback.Settled.{tests_of}
use judge.Callback.Verdict.{own_verdict, statuses_eq}
use judge.Callback.Race.{Job, arrived, stored, looked}
use judge.Callback.Kept.{is_arrived, is_early, is_expected}

-- Nothing arrives for a test case when no callback is early.
pub none_arrived :
    (t : String) (jobs : List Job) → any is_early jobs ≡ false → any (is_arrived t) jobs ≡ false
none_arrived t [] h = refl
none_arrived t (arrived u ∷ jobs) h = absurd (ground arith)
none_arrived t (stored u ∷ jobs) h = absurd (ground arith)
none_arrived t (looked cases ∷ jobs) h = none_arrived t jobs h

module _ (id : String) (key : String → String) (results : String → Body) where
  -- Callbacks that have not just arrived make no row expected.
  pub expected_moved :
      (before after : List Job) (x : Job)
      → ((t : String) → is_arrived t x ≡ false)
      → (rows : List SubmissionCase)
      → every (is_expected id key results (before ++ x ∷ after)) rows ≡ true
      → every (is_expected id key results (before ++ after)) rows ≡ true
  expected_moved before after x h rows e =
      every_both (is_expected id key results (before ++ x ∷ after))
        (is_expected id key results (before ++ x ∷ after))
        (is_expected id key results (before ++ after))
        (λ d p q.
          ground (arith, any-around (is_arrived d.test_case_id) x before after, h d.test_case_id))
        rows e e

  pub expected_widened :
      (before after : List Job) (x : Job) (rows : List SubmissionCase)
      → every (is_expected id key results (before ++ after)) rows ≡ true
      → every (is_expected id key results (before ++ x ∷ after)) rows ≡ true
  expected_widened before after x rows e =
      every_both (is_expected id key results (before ++ after))
        (is_expected id key results (before ++ after))
        (is_expected id key results (before ++ x ∷ after))
        (λ d p q. ground (arith, any-around (is_arrived d.test_case_id) x before after)) rows e e

  -- A row that is expected has its verdict, where its status is final or no callback is early.
  own_of_final :
      (jobs : List Job) (rows : List SubmissionCase)
      → every (is_expected id key results jobs) rows ≡ true
      → every (λ d. not (of_submission id d) || is_final_verdict d.status) rows ≡ true
      → every (own_verdict id key results) rows ≡ true
  unfolding own_verdict
  own_of_final jobs rows e f =
      every_both (is_expected id key results jobs)
        (λ d. not (of_submission id d) || is_final_verdict d.status) (own_verdict id key results)
        (λ d p q. ground arith) rows e f

  own_of_late :
      (jobs : List Job) (rows : List SubmissionCase)
      → any is_early jobs ≡ false
      → every (is_expected id key results jobs) rows ≡ true
      → every (own_verdict id key results) rows ≡ true
  own_of_late jobs rows late e =
      every_both (is_expected id key results jobs) (is_expected id key results jobs)
        (own_verdict id key results)
        (λ d p q. ground (arith, none_arrived d.test_case_id jobs late)) rows e e

  module _ ⦃prisma : Prisma⦄ (tests : List String) where
    abbrev pub vs : List SubmissionStatus
    vs = map (verdict results) tests

    -- What is read when every row has its verdict.
    read_all :
        (db : Db)
        → Permᴰ (tests_of id db) tests
        → every (own_verdict id key results) db.submission_cases ≡ true
        → Permᴰ (statuses (cases_of_submission id db)) vs
    unfolding cases_of_submission
    read_all db same own =
        Permᴰ.trans
          (map-perm (λ (c : SubmissionCase). c.status)
            (prisma.find_many_perm (of_submission id) db.submission_cases))
          (subst (λ ws. Permᴰ ws vs) (sym (statuses_eq id key results db.submission_cases own))
            (map-perm (verdict results) same))

    pub read_done :
        (jobs : List Job) (db : Db)
        → Permᴰ (tests_of id db) tests
        → every (is_expected id key results jobs) db.submission_cases ≡ true
        → all_done (cases_of_submission id db) ≡ true
        → Permᴰ (statuses (cases_of_submission id db)) vs
    read_done jobs db same e done = read_all db same (
        own_of_final jobs db.submission_cases e (
          sym (
            every-find_many (of_submission id) (λ d. is_final_verdict d.status) db.submission_cases)
          ∙ unfold cases_of_submission in done))

    pub read_late :
        (jobs : List Job) (db : Db)
        → every is_final_verdict vs ≡ true
        → Permᴰ (tests_of id db) tests
        → any is_early jobs ≡ false
        → every (is_expected id key results jobs) db.submission_cases ≡ true
        → all_done (cases_of_submission id db) ≡ true
    read_late jobs db final same late e =
        sym (
          every-map (λ (c : SubmissionCase). c.status) is_final_verdict (cases_of_submission id db))
        ∙ every-perm is_final_verdict
            (read_all db same (own_of_late jobs db.submission_cases late e))
        ∙ final
