-- ===== src/Admin/Replace.antt =====
-- What an update and a deletion leave of a problem's rows.
use judge.Base.{
  ℕ, suc, ◌+◌, ◌≡◌, refl, ◌∙◌, Bool, not, ◌&&◌, ◌||◌, String, List, [], ◌∷◌, map_from, any, count,
  length, str_eq, eq_iff, arith,
}
use judge.Schema.{
  StarterCode, ProblemTag, Discussion, ContestProblem, DailyProblem, Db, Problem, TestCase,
  SubmissionCase, Submission,
}
use judge.Prisma.{Prisma}
use judge.Prisma.Rows.{count-remove, count-insert}
use judge.Submit.{insert_all}
use judge.Admin.{
  Fresh, replace_problem, delete_children, create_children, delete_problem, tests_problem,
}
use judge.Admin.Data.{ProblemData, CaseData, case_row, content}

abbrev pub of_problem : String → TestCase → Bool
of_problem id t = str_eq t.problem_id id

module _ ⦃prisma : Prisma⦄ where
  pub count-insert_all :
      {R : Type 0} (q : R → Bool) (rows table : List R)
      → count q (insert_all rows table) ≡ count q rows + count q table
  unfolding insert_all
  count-insert_all q [] table = omega arith
  count-insert_all q (r ∷ rows) table =
      count-insert q r (insert_all rows table) ∙ omega (arith, count-insert_all q rows table)

  pub cases_of_new :
      (fresh : ℕ → String) (id : String) (i : ℕ) (ds : List CaseData)
      → count (of_problem id) (map_from (λ i. case_row (fresh i) id) i ds) ≡ length ds
  unfolding case_row
  cases_of_new fresh id i [] = refl
  cases_of_new fresh id i (d ∷ ds) = ground (arith, eq_iff id id, cases_of_new fresh id (suc i) ds)

  contents_of_new :
      (fresh : ℕ → String) (id : String) (q : CaseData → Bool) (i : ℕ) (ds : List CaseData)
      → count (λ t. of_problem id t && q (content t)) (map_from (λ i. case_row (fresh i) id) i ds)
        ≡ count q ds
  unfolding case_row
  contents_of_new fresh id q i [] = refl
  contents_of_new fresh id q i (d ∷ ds) =
      ground (arith, eq_iff id id, contents_of_new fresh id q (suc i) ds)

  others_of_new :
      (fresh : ℕ → String) (id : String) (q : TestCase → Bool) (i : ℕ) (ds : List CaseData)
      → count (λ t. q t && not (of_problem id t)) (map_from (λ i. case_row (fresh i) id) i ds) ≡ 0
  unfolding case_row
  others_of_new fresh id q i [] = refl
  others_of_new fresh id q i (d ∷ ds) =
      ground (arith, eq_iff id id, others_of_new fresh id q (suc i) ds)

  module _ {R : Type 0} where
    same_others :
        (w q : R → Bool) (rows : List R)
        → count (λ r. q r && not (w r)) (prisma.remove w rows) ≡ count (λ r. q r && not (w r)) rows
    same_others w q rows = count-remove (λ r. q r && not (w r)) w rows ∙ twice rows
      where
        twice :
            (rs : List R)
            → count (λ r. not (w r) && (q r && not (w r))) rs ≡ count (λ r. q r && not (w r)) rs
        twice [] = refl
        twice (r ∷ rs) = ground (arith, twice rs)

    none_such :
        (w q : R → Bool) (rows : List R) → count (λ r. w r && q r) (prisma.remove w rows) ≡ 0
    none_such w q rows = count-remove (λ r. w r && q r) w rows ∙ never rows
      where
        never : (rs : List R) → count (λ r. not (w r) && (w r && q r)) rs ≡ 0
        never [] = refl
        never (r ∷ rs) = ground (arith, never rs)

    pub all_gone : (w : R → Bool) (rows : List R) → count w (prisma.remove w rows) ≡ 0
    all_gone w rows = count-remove w w rows ∙ never rows
      where
        never : (rs : List R) → count (λ r. not (w r) && w r) rs ≡ 0
        never [] = refl
        never (r ∷ rs) = ground (arith, never rs)

  -- An update leaves the problem with the test cases of the request and no other, each with its
  -- input, expected output, sample mark and order: as many fulfil any test. It leaves the test cases
  -- of every other problem as they were, and deletes the results of every submission on the problem's
  -- earlier test cases.
  pub replace_problem_cases :
      (fresh : Fresh) (id : String) (d : ProblemData) (tag_ids : List String) (db : Db)
      → (c : CaseData → Bool) (q : TestCase → Bool)
      → (count
            (λ t. of_problem id t && c (content t))
            (replace_problem fresh id d tag_ids db).test_cases
          ≡ count c d.test_cases)
        × (count
              (λ t. q t && not (of_problem id t))
              (replace_problem fresh id d tag_ids db).test_cases
            ≡ count (λ t. q t && not (of_problem id t)) db.test_cases)
        × (count (tests_problem db id) (replace_problem fresh id d tag_ids db).submission_cases ≡ 0)
  unfolding replace_problem create_children delete_children
  replace_problem_cases fresh id d tag_ids db c q = (
    count-insert_all (λ t. of_problem id t && c (content t))
          (map_from (λ i. case_row (fresh.test_case i) id) 0 d.test_cases)
          (prisma.remove (of_problem id) db.test_cases)
        ∙ omega (
          arith,
          contents_of_new fresh.test_case id c 0 d.test_cases,
          none_such (of_problem id) (λ t. c (content t)) db.test_cases,
        ),
    count-insert_all (λ t. q t && not (of_problem id t))
          (map_from (λ i. case_row (fresh.test_case i) id) 0 d.test_cases)
          (prisma.remove (of_problem id) db.test_cases)
        ∙ omega (
          arith,
          others_of_new fresh.test_case id q 0 d.test_cases,
          same_others (of_problem id) q db.test_cases,
        ),
    all_gone (tests_problem db id) db.submission_cases,
  )

  -- After a deletion no row of the problem is left: not the problem, a submission, a test case, a
  -- starter code, a tag link, a discussion, a contest's link or a day's entry, and no result on one
  -- of its test cases.
  pub delete_problem_gone :
      (id : String) (db : Db)
      → (count (λ (p : Problem). str_eq p.id id) (delete_problem id db).problems ≡ 0)
        × (count (λ (s : Submission). str_eq s.problem_id id) (delete_problem id db).submissions
            ≡ 0)
        × (count (of_problem id) (delete_problem id db).test_cases ≡ 0)
        × (count (λ (s : StarterCode). str_eq s.problem_id id) (delete_problem id db).starter_codes
            ≡ 0)
        × (count (λ (t : ProblemTag). str_eq t.problem_id id) (delete_problem id db).problem_tags
            ≡ 0)
        × (count (λ (e : Discussion). str_eq e.problem_id id) (delete_problem id db).discussions
            ≡ 0)
        × (count
              (λ (p : ContestProblem). str_eq p.problem_id id)
              (delete_problem id db).contest_problems
            ≡ 0)
        × (count
              (λ (e : DailyProblem). str_eq e.problem_id id)
              (delete_problem id db).daily_problems
            ≡ 0)
        × (count
              (λ (c : SubmissionCase).
                tests_problem db id c
                || any
                    (λ (s : Submission). str_eq s.problem_id id && str_eq s.id c.submission_id)
                    db.submissions)
              (delete_problem id db).submission_cases
            ≡ 0)
  unfolding delete_problem delete_children
  delete_problem_gone id db = (
    all_gone (λ (p : Problem). str_eq p.id id) db.problems,
    all_gone (λ (s : Submission). str_eq s.problem_id id) db.submissions,
    all_gone (of_problem id) db.test_cases,
    all_gone (λ (s : StarterCode). str_eq s.problem_id id) db.starter_codes,
    all_gone (λ (t : ProblemTag). str_eq t.problem_id id) db.problem_tags,
    all_gone (λ (e : Discussion). str_eq e.problem_id id) db.discussions,
    all_gone (λ (p : ContestProblem). str_eq p.problem_id id) db.contest_problems,
    all_gone (λ (e : DailyProblem). str_eq e.problem_id id) db.daily_problems,
    all_gone _ db.submission_cases,
  )
