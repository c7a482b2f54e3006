-- ===== src/Callback/Ended.antt =====
-- Callbacks that run at once: when all are over, the submission has its verdict.
use judge.Base.{
  ℕ, suc, ◌+◌, ◌*◌, ◌≡◌, refl, sym, subst, ap, ◌∙◌, String, true, false, List, [], ◌∷◌, ◌++◌, map,
  filter, any, every, some, length, sum_of, All, Permᴰ, str_eq, ◌==◌, arith, any-around, All-with,
  All-without, sum_of-around, Bool-cases, inl, inr,
}
use judge.Schema.{Db, Submission, SubmissionCase, SubmissionStatus}
use judge.Prisma.{Prisma, find_first}
use judge.Prisma.Rows.{every-modify, every-modify_where}
use judge.Grader.{rank, combine_verdicts, is_final_verdict}
use judge.Grader.Combine.{combine_verdicts-perm}
use judge.Judge0.{Base64}
use judge.Callback.{
  Body, Rounding, is_case, write_case, cases_of_submission, recomputed, all_done, settle, finished,
}
use judge.Callback.Graded.{
  of_submission, statuses, submission_cases-recomputed, submissions-recomputed,
}
use judge.Callback.Delivery.{IsKeyed, verdict}
use judge.Callback.Race.{
  Job, arrived, stored, looked, Race, Step, Steps, store, look, finish, none_yet, one_more,
}
use judge.Callback.Kept.{
  is_early, is_complete, has_combined, is_expected, IsTrue, Kept, stored-IsKeyed, stored-tests,
  stored-expected,
}
use judge.Callback.Late.{expected_moved, expected_widened, read_done, read_late}

settle_complete :
    (id : String) (ws : List SubmissionStatus) (cases : List SubmissionCase) (now : ℕ)
    (s : Submission)
    → Permᴰ (statuses cases) ws
    → all_done cases ≡ true
    → (rank (settle cases now s).status == rank (combine_verdicts ws)) ≡ true
unfolding settle finished
settle_complete id ws cases now s p done =
    ground (arith, done, combine_verdicts-perm (statuses cases) ws p)

settle_partial :
    (id : String) (ws : List SubmissionStatus) (cases : List SubmissionCase) (now : ℕ)
    (s : Submission)
    → all_done cases ≡ false
    → has_combined id ws (settle cases now s) ≡ has_combined id ws s
unfolding settle finished
settle_partial id ws cases now s part = ground (arith, part)

module _ (id : String) (key : String → String) (results : String → Body) where
  module _ ⦃prisma : Prisma⦄ (base64 : Base64) (to_ms : Rounding) (tests : List String) where
    abbrev ws : List SubmissionStatus
    ws = map (verdict results) tests

    abbrev TrueRead : Job → Type 0
    TrueRead = IsTrue id key results ws

    -- A callback that has read all results leaves their combination.
    finished_complete :
        (cases : List SubmissionCase) (now : ℕ) (db : Db)
        → Permᴰ (statuses cases) ws
        → all_done cases ≡ true
        → every (has_combined id ws) (recomputed id cases now db).submissions ≡ true
    finished_complete cases now db p done =
        ap (every (has_combined id ws)) (submissions-recomputed id cases now db)
        ∙ every-modify_where (λ s. rank s.status == rank (combine_verdicts ws))
            (λ s. str_eq s.id id) (settle cases now) db.submissions
            (λ s. settle_complete id ws cases now s p done)

    -- One that has not leaves it where it is there.
    finished_partial :
        (cases : List SubmissionCase) (now : ℕ) (db : Db)
        → all_done cases ≡ false
        → every (has_combined id ws) db.submissions ≡ true
        → every (has_combined id ws) (recomputed id cases now db).submissions ≡ true
    finished_partial cases now db part h =
        ap (every (has_combined id ws)) (submissions-recomputed id cases now db)
        ∙ every-modify (has_combined id ws) (λ s. str_eq s.id id) (settle cases now) db.submissions
            (λ s w q. settle_partial id ws cases now s part ∙ q) h

    module _ (s : Race) (before after : List Job) (h : Kept id key results tests s) where
      store-Kept :
          (t : String) (c : SubmissionCase)
          → s.jobs ≡ (before ++ arrived t ∷ after)
          → find_first (is_case id t) s.db.submission_cases ≡ some c
          → Kept id key results tests (record {
            db = write_case base64 to_ms (results t) c s.db;
            jobs = before ++ stored t ∷ after;
          })
      store-Kept t c e found = record {
        keyed = stored-IsKeyed id key results base64 to_ms tests t c s.db found h.keyed;
        same_tests =
            Permᴰ.trans (stored-tests id key results base64 to_ms tests t c s.db found)
              h.same_tests;
        expected =
            stored-expected id key results base64 to_ms tests t c s.db found before after h.keyed (
              subst (λ jobs. every (is_expected id key results jobs) s.db.submission_cases ≡ true) e
                h.expected);
        read =
            All-with TrueRead (stored t) before after tt
              (All-without TrueRead (arrived t) before after (subst (All TrueRead) e h.read)).1;
        progress = ground (arith, any-around is_early (stored t) before after);
      }

      look-Kept :
          (t : String)
          → every is_final_verdict ws ≡ true
          → s.jobs ≡ (before ++ stored t ∷ after)
          → Kept id key results tests
              (record s { jobs = before ++ looked (cases_of_submission id s.db) ∷ after })
      look-Kept t final e = record {
        keyed = h.keyed;
        same_tests = h.same_tests;
        expected =
            expected_widened id key results before after (looked cases) s.db.submission_cases kept;
        read =
            All-with TrueRead (looked cases) before after
              (read_done id key results tests (before ++ after) s.db h.same_tests kept)
              (All-without TrueRead (stored t) before after (subst (All TrueRead) e h.read)).1;
        progress = elim (Bool-cases (any is_early (before ++ after))) [
          | inl early ↦ ground (arith, early, any-around is_early (looked cases) before after)
          | inr late ↦ ground (
            arith,
            any-around is_complete (looked cases) before after,
            read_late id key results tests (before ++ after) s.db final h.same_tests late kept,
          )
        ];
      }
        where
          cases : List SubmissionCase
          cases = cases_of_submission id s.db

          kept : every (is_expected id key results (before ++ after)) s.db.submission_cases ≡ true
          kept =
              expected_moved id key results before after (stored t) (λ u. refl)
                s.db.submission_cases
                (subst
                  (λ jobs. every (is_expected id key results jobs) s.db.submission_cases ≡ true) e
                  h.expected)

      finish-Kept :
          (cases : List SubmissionCase) (now : ℕ)
          → s.jobs ≡ (before ++ looked cases ∷ after)
          → Kept id key results tests
              (record { db = recomputed id cases now s.db; jobs = before ++ after })
      finish-Kept cases now e = record {
        keyed = subst (IsKeyed id key results) (sym same) h.keyed;
        same_tests =
            subst
              (λ rows.
                Permᴰ
                  (map (λ (c : SubmissionCase). c.test_case_id) (filter (of_submission id) rows))
                  tests)
              (sym same) h.same_tests;
        expected =
            subst (λ rows. every (is_expected id key results (before ++ after)) rows ≡ true)
              (sym same) kept;
        read = parts.1;
        progress = elim (Bool-cases (all_done cases)) [
          | inl done ↦ ground (arith, finished_complete cases now s.db (parts.0 done) done)
          | inr part ↦ ground (
            arith,
            e,
            part,
            any-around is_early (looked cases) before after,
            any-around is_complete (looked cases) before after,
            h.progress,
            finished_partial cases now s.db part,
          )
        ];
      }
        where
          same : (recomputed id cases now s.db).submission_cases ≡ s.db.submission_cases
          same = submission_cases-recomputed id cases now s.db

          kept : every (is_expected id key results (before ++ after)) s.db.submission_cases ≡ true
          kept =
              expected_moved id key results before after (looked cases) (λ u. refl)
                s.db.submission_cases
                (subst
                  (λ jobs. every (is_expected id key results jobs) s.db.submission_cases ≡ true) e
                  h.expected)

          parts : TrueRead (looked cases) × All TrueRead (before ++ after)
          parts = All-without TrueRead (looked cases) before after (subst (All TrueRead) e h.read)

    Step-Kept :
        {s t : Race}
        → every is_final_verdict (map (verdict results) tests) ≡ true
        → Step id results base64 to_ms s t
        → Kept id key results tests s
        → Kept id key results tests t
    Step-Kept final (store s before after t c e found) h = store-Kept s before after h t c e found
    Step-Kept final (look s before after t e) h = look-Kept s before after h t final e
    Step-Kept final (finish s before after cases now e) h = finish-Kept s before after h cases now e

    pub Steps-Kept :
        {s : Race} {n : ℕ} {t : Race}
        → every is_final_verdict (map (verdict results) tests) ≡ true
        → Steps id results base64 to_ms s n t
        → Kept id key results tests s
        → Kept id key results tests t
    Steps-Kept final none_yet h = h
    Steps-Kept final (one_more r st) h = Step-Kept final st (Steps-Kept final r h)

    -- The steps that a callback has before it.
    abbrev pub steps_of : Job → ℕ
    steps_of (arrived t) = 3
    steps_of (stored t) = 2
    steps_of (looked cases) = 1

    pub Step_counted :
        {s t : Race}
        → Step id results base64 to_ms s t
        → suc (sum_of steps_of t.jobs) ≡ sum_of steps_of s.jobs
    Step_counted (store s before after t c e found) = omega (
      arith,
      ap (sum_of steps_of) e,
      sum_of-around steps_of (arrived t) before after,
      sum_of-around steps_of (stored t) before after,
    )
    Step_counted (look s before after t e) = omega (
      arith,
      ap (sum_of steps_of) e,
      sum_of-around steps_of (stored t) before after,
      sum_of-around steps_of (looked (cases_of_submission id s.db)) before after,
    )
    Step_counted (finish s before after cases now e) =
        omega (arith, ap (sum_of steps_of) e, sum_of-around steps_of (looked cases) before after)

    pub Steps_counted :
        {s : Race} {n : ℕ} {t : Race}
        → Steps id results base64 to_ms s n t
        → n + sum_of steps_of t.jobs ≡ sum_of steps_of s.jobs
    Steps_counted none_yet = omega arith
    Steps_counted (one_more r st) = omega (arith, Steps_counted r, Step_counted st)

    pub all_arrived : (ts : List String) → sum_of steps_of (map arrived ts) ≡ 3 * length ts
    all_arrived [] = refl
    all_arrived (t ∷ ts) = omega (arith, all_arrived ts)
