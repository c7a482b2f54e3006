-- ===== src/Callback/Interleaved.antt =====
-- The callbacks of all test cases of a submission, in any interleaving.
use judge.Base.{
  ℕ, ◌*◌, ◌≡◌, refl, ap, String, Bool, true, not, ◌||◌, List, [], ◌∷◌, map, any, every, length,
  sum_of, All, str_eq, arith, every_both,
}
use mathlib.Core.List.Permᴰ
use judge.Schema.{Db, SubmissionCase}
use judge.Prisma.{Prisma}
use judge.Grader.{is_final_verdict}
use judge.Judge0.{Base64}
use judge.Callback.{Body, Rounding}
use judge.Callback.Graded.{of_submission}
use judge.Callback.Delivery.{IsKeyed, verdict}
use judge.Callback.Settled.{tests_of, covered}
use judge.Callback.Verdict.{own_verdict}
use judge.Callback.Race.{arrived, Race, Steps}
use judge.Callback.Kept.{is_arrived, has_combined, is_expected, IsTrue, Kept}
use judge.Callback.Ended.{Steps-Kept, steps_of, Steps_counted, all_arrived}

-- A row of the submission has no final status yet.
abbrev pub is_open : String → SubmissionCase → Bool
is_open id d = not (of_submission id d) || not (is_final_verdict d.status)

arrived_any :
    (u : String) (ts : List String) → any (λ t. str_eq t u) ts ≡ any (is_arrived u) (map arrived ts)
arrived_any u [] = refl
arrived_any u (t ∷ ts) = ground (arith, arrived_any u ts)

module _ (id : String) (key : String → String) (results : String → Body) where
  All-IsTrue :
      (tests ts : List String)
      → All (IsTrue id key results (map (verdict results) tests)) (map arrived ts)
  All-IsTrue tests [] = tt
  All-IsTrue tests (t ∷ ts) = (tt, All-IsTrue tests ts)

  abbrev pub start : String → List String → Db → Race
  start t ts db = record { db = db; jobs = map arrived (t ∷ ts) }

  start-Kept :
      (t : String) (ts : List String) (db : Db)
      → IsKeyed id key results db.submission_cases
      → every (is_open id) db.submission_cases ≡ true
      → every (covered id (t ∷ ts)) db.submission_cases ≡ true
      → Kept id key results (tests_of id db) (start t ts db)
  unfolding own_verdict
  start-Kept t ts db keyed waiting cover = record {
    keyed = keyed;
    same_tests = Permᴰ.refl (tests_of id db);
    expected =
        every_both (is_open id) (covered id (t ∷ ts))
          (is_expected id key results (map arrived (t ∷ ts)))
          (λ d p q. ground (arith, arrived_any d.test_case_id (t ∷ ts))) db.submission_cases waiting
          cover;
    read = All-IsTrue (tests_of id db) (t ∷ ts);
    progress = refl;
  }

  module _ ⦃prisma : Prisma⦄ (base64 : Base64) (to_ms : Rounding) where
    -- Let each row of a submission be the only one for its test case, with an identifier that no other
    -- row has, let none be final yet, and let the callbacks of test cases that cover its rows, with
    -- results that are final, be handled at once, their steps in any order. When all are over, three
    -- steps each, the submission has the combined verdict of all results.
    pub interleaved_settles :
        (t : String) (ts : List String) (db : Db) {n : ℕ} {s : Race}
        → IsKeyed id key results db.submission_cases
        → every (is_open id) db.submission_cases ≡ true
        → every (covered id (t ∷ ts)) db.submission_cases ≡ true
        → every is_final_verdict (map (verdict results) (tests_of id db)) ≡ true
        → Steps id results base64 to_ms (start t ts db) n s
        → s.jobs ≡ []
        → (n ≡ 3 * length (t ∷ ts))
          × (every (has_combined id (map (verdict results) (tests_of id db))) s.db.submissions
              ≡ true)
    interleaved_settles t ts db keyed waiting cover final steps over =
        let kept =
          Steps-Kept id key results base64 to_ms (tests_of id db) final steps
            (start-Kept t ts db keyed waiting cover) in
        (
          omega (
            arith,
            Steps_counted id key results base64 to_ms [] steps,
            all_arrived id key results base64 to_ms [] (t ∷ ts),
            ap (sum_of (steps_of id key results base64 to_ms [])) over,
          ),
          ground (arith, kept.progress, over),
        )
