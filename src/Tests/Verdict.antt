-- ===== src/Tests/Verdict.antt =====
-- A verdict on its way to the page.
use judge.Base.{◌≡◌, refl, true, false, ◌∷◌, [], some, map, count, Permᴰ}
use judge.Prisma.Memory.{memory}
use judge.Grader.{combine_verdicts, is_ac, is_final_verdict, judge0_status_to_verdict}
use judge.Submit.{case_rows, new_case, write_tokens}
use judge.Callback.Delivery.{deliver, verdict}
use judge.Editor.{Page, SubmissionDetail, poll}
use judge.Web.Verdict.{after_poll, verdict_shown}
use judge.Tests.Grading.{rows, created_db, new_key, created_db-IsKeyed}
use judge.Tests.Frontend.{page}
use judge.Tests.World.{alice, plain64, to_ms, results, sample_case, hidden_case, case_ids}

abbrev waiting_page : Page
waiting_page = record page { busy = true; work = poll "s2" ∷ [] }

verdict_shown_example :
    (d : SubmissionDetail) × (d.status
      ≡ combine_verdicts (map (verdict results) ("t1" ∷ "t2" ∷ [])))
    × (d.passed_count ≡ count is_ac (map (verdict results) ("t1" ∷ "t2" ∷ [])))
    × (after_poll ⦃prisma = memory⦄
          (deliver "s2" new_key results ⦃prisma = memory⦄ plain64 to_ms 700
            ("t2" ∷ "t1" ∷ [])
            (write_tokens ⦃prisma = memory⦄ "s2" ("tok1" ∷ "tok2" ∷ []) rows created_db))
          alice
          "s2"
          waiting_page
        ≡ record waiting_page { submission = some d; busy = false; work = [] })
unfolding case_rows new_case is_final_verdict judge0_status_to_verdict
verdict_shown_example =
    verdict_shown ⦃prisma = memory⦄ "s2" case_ids (sample_case ∷ hidden_case ∷ [])
      (some "tok1" ∷ some "tok2" ∷ []) rows ("tok1" ∷ "tok2" ∷ []) created_db refl refl refl refl
      new_key results plain64 to_ms 700 "t2" ("t1" ∷ []) created_db-IsKeyed (Permᴰ.swap refl refl)
      refl alice waiting_page
