-- ===== src/Pipeline.antt =====
-- Submitting and grading together: what a new submission looks like to the callbacks.
pub mod EndToEnd
pub mod Submitted
use mathlib.Core.List.Permᴰ
use judge.Base.{
  ℕ, suc, String, ◌≡◌, refl, sym, subst, ◌∙◌, Bool, true, false, not, ◌&&◌, ◌||◌, List, [], ◌∷◌,
  ◌++◌, Option, none, some, map, filter, any, every, length, Permᴰ, map-perm, filter-perm, str_eq,
  eq_iff, ◌==◌, arith, every_both, every_of_none, every-perm, &&-parts,
}
use mathlib.Core.Option
use judge.Schema.{Db, Submission, SubmissionCase, TestCase, pending, running}
use judge.Prisma.{Prisma}
use judge.Prisma.Rows.{find_first_absent, every-modify_where}
use judge.Http.{ok}
use judge.Grader.{rank}
use judge.Judge0.{Base64}
use judge.Submit.{case_rows, insert_all, write_tokens}
use judge.Callback.{Body, Rounding, grade, is_case}
use judge.Callback.Graded.{of_submission}
use judge.Callback.Settled.{tests_of}

not_any_case :
    (id t : String) (cases : List SubmissionCase)
    → any (of_submission id) cases ≡ false
    → any (is_case id t) cases ≡ false
not_any_case id t [] h = refl
not_any_case id t (c ∷ cases) h = ground (arith, not_any_case id t cases)

-- A row that waits for its result.
abbrev pub is_waiting : String → SubmissionCase → Bool
is_waiting id c = str_eq c.submission_id id && rank c.status == rank pending

case_rows-waiting :
    (id : String) (case_id : ℕ → String) (i : ℕ) (cases : List TestCase)
    (tokens : List (Option String)) (rows : List SubmissionCase)
    → case_rows id case_id i cases tokens ≡ some rows
    → every (is_waiting id) rows ≡ true
unfolding case_rows
case_rows-waiting id case_id i cases [] rows e = ground arith
case_rows-waiting id case_id i [] (t ∷ tokens) rows e = cc
case_rows-waiting id case_id i (tc ∷ cases) (none ∷ tokens) rows e = cc
case_rows-waiting id case_id i (tc ∷ cases) (some t ∷ tokens) rows e =
    let (more, e', same) = (Option.map-eq-some_iff _ _).0 e in
    rw (← same)
      (ground (arith, eq_iff id id, case_rows-waiting id case_id (suc i) cases tokens more e'))

case_rows-tests :
    (id : String) (case_id : ℕ → String) (i : ℕ) (cases : List TestCase)
    (tokens : List (Option String)) (rows : List SubmissionCase)
    → length tokens ≡ length cases
    → case_rows id case_id i cases tokens ≡ some rows
    → map (λ (c : SubmissionCase). c.test_case_id) rows ≡ map (λ (t : TestCase). t.id) cases
unfolding case_rows
case_rows-tests id case_id i [] [] rows l e = ground arith
case_rows-tests id case_id i (tc ∷ cases) [] rows l e = absurd (omega arith)
case_rows-tests id case_id i [] (t ∷ tokens) rows l e = cc
case_rows-tests id case_id i (tc ∷ cases) (none ∷ tokens) rows l e = cc
case_rows-tests id case_id i (tc ∷ cases) (some t ∷ tokens) rows l e =
    let (more, e', same) = (Option.map-eq-some_iff _ _).0 e in
    rw (← same)
      (ground (arith, case_rows-tests id case_id (suc i) cases tokens more (omega arith) e'))

module _ {A : Type 0} (q : A → Bool) where
  every-append :
      (xs ys : List A) → every q xs ≡ true → every q ys ≡ true → every q (xs ++ ys) ≡ true
  every-append [] ys h k = k
  every-append (x ∷ xs) ys h k = ground (arith, every-append xs ys)

  filter_absent : (ys : List A) → any q ys ≡ false → filter q ys ≡ []
  filter_absent [] h = refl
  filter_absent (y ∷ ys) h = ground (arith, filter_absent ys)

  filter_new : (xs ys : List A) → every q xs ≡ true → any q ys ≡ false → filter q (xs ++ ys) ≡ xs
  filter_new [] ys h k = filter_absent ys k
  filter_new (x ∷ xs) ys h k = ground (arith, filter_new xs ys)

module _ ⦃prisma : Prisma⦄ where
  insert_all-perm : {R : Type 0} (new rows : List R) → Permᴰ (insert_all new rows) (new ++ rows)
  unfolding insert_all
  insert_all-perm [] rows = Permᴰ.refl rows
  insert_all-perm (r ∷ new) rows =
      Permᴰ.trans (prisma.insert_perm r (insert_all new rows))
        (Permᴰ.cons refl (insert_all-perm new rows))

  -- A callback that arrives before the transaction of `submit` has created the cases finds no case:
  -- it is answered by 404 and its result is lost.
  pub early_callback_lost :
      (base64 : Base64) (to_ms : Rounding) (body : Body) (id t : String) (now : ℕ) (db : Db)
      → any (of_submission id) db.submission_cases ≡ false
      → grade base64 to_ms body id t now db ≡ (ok 404, db)
  unfolding grade
  early_callback_lost base64 to_ms body id t now db h = rw (
    find_first_absent (is_case id t) db.submission_cases (not_any_case id t db.submission_cases h),
    grade,
  )

  module _ (id : String) (case_id : ℕ → String) (cases : List TestCase)
      (tokens : List (Option String)) (rows : List SubmissionCase) (db : Db)
      (fresh : any (of_submission id) db.submission_cases ≡ false)
      (answered : length tokens ≡ length cases)
      (made : case_rows id case_id 0 cases tokens ≡ some rows) (texts : List String) where
    waits : SubmissionCase → Bool
    waits c = not (of_submission id c) || rank c.status == rank pending

    -- If the submission had no case, and Judge0 gave a token for each test case: after the
    -- transaction the submission is running and its cases all wait, and there is one for each test
    -- case of the problem.
    pub write_tokens-waiting :
        (every
            (λ (s : Submission). not (str_eq s.id id) || rank s.status == rank running)
            (write_tokens id texts rows db).submissions
          ≡ true)
        × (every
              (λ c. not (of_submission id c) || rank c.status == rank pending)
              (write_tokens id texts rows db).submission_cases
            ≡ true)
        × Permᴰ (tests_of id (write_tokens id texts rows db)) (map (λ (t : TestCase). t.id) cases)
    unfolding write_tokens waits
    write_tokens-waiting = (
      every-modify_where (λ s. rank s.status == rank running) (λ s. str_eq s.id id)
          (λ s. record s { judge0_tokens = texts; status = running }) db.submissions
          (λ s. ground arith),
      every-perm waits (insert_all-perm rows db.submission_cases)
          ∙ every-append waits rows db.submission_cases
              (every_both (is_waiting id) (is_waiting id) waits (λ c p q. ground (arith, p)) rows
                waiting waiting)
              (every_of_none (of_submission id) (λ c. rank c.status == rank pending)
                db.submission_cases fresh),
      Permᴰ.trans
          (map-perm (λ (c : SubmissionCase). c.test_case_id)
            (filter-perm (of_submission id) (insert_all-perm rows db.submission_cases)))
          (subst
            (λ cs.
              Permᴰ (map (λ (c : SubmissionCase). c.test_case_id) cs)
                (map (λ (t : TestCase). t.id) cases))
            (sym (filter_new (of_submission id) rows db.submission_cases ours fresh))
            (subst (Permᴰ (map (λ (c : SubmissionCase). c.test_case_id) rows))
              (case_rows-tests id case_id 0 cases tokens rows answered made) (Permᴰ.refl _))),
    )
      where
        waiting : every (is_waiting id) rows ≡ true
        waiting = case_rows-waiting id case_id 0 cases tokens rows made

        ours : every (of_submission id) rows ≡ true
        ours =
            every_both (is_waiting id) (is_waiting id) (of_submission id)
              (λ c p q. (&&-parts _ _ p).0) rows waiting waiting
