-- ===== src/Tests/Interleaving.antt =====
-- Two callbacks of one submission whose steps are interleaved: the first reads the cases, then the
-- second is handled whole, then the first writes what it has computed.
use judge.Base.{◌≡◌, refl, List, [], ◌∷◌, map}
use judge.Schema.{Db, Submission, SubmissionCase, ac}
use judge.Prisma.Memory.{memory}
use judge.Grader.{is_final_verdict, judge0_status_to_verdict, combine_verdicts}
use judge.Callback.{write_case, cases_of_submission, recomputed}
use judge.Tests.World.{plain64, to_ms, results, case1, case2, db}

-- both results are accepted
abbrev first : Db
first = write_case ⦃prisma = memory⦄ plain64 to_ms (results "t1") case1 db

abbrev read_early : List SubmissionCase
read_early = cases_of_submission ⦃prisma = memory⦄ "s1" first

abbrev second : Db
second = write_case ⦃prisma = memory⦄ plain64 to_ms (results "t1") case2 first

abbrev settled : Db
settled =
    recomputed ⦃prisma = memory⦄ "s1" (cases_of_submission ⦃prisma = memory⦄ "s1" second) 700 second

abbrev overwritten : Db
overwritten = recomputed ⦃prisma = memory⦄ "s1" read_early 701 settled

settled_counts :
    (map (λ (s : Submission). s.passed_count) settled.submissions ≡ 2 ∷ 2 ∷ [])
    × (map (λ (s : Submission). s.status) settled.submissions ≡ ac ∷ ac ∷ [])
unfolding recomputed write_case cases_of_submission memory is_final_verdict judge0_status_to_verdict
    combine_verdicts
settled_counts = (refl, refl)

-- The submission stays accepted, with one case fewer than have passed.
overwritten_counts :
    (map (λ (s : Submission). s.passed_count) overwritten.submissions ≡ 1 ∷ 2 ∷ [])
    × (map (λ (s : Submission). s.status) overwritten.submissions ≡ ac ∷ ac ∷ [])
unfolding recomputed write_case cases_of_submission memory is_final_verdict judge0_status_to_verdict
    combine_verdicts
overwritten_counts = (refl, refl)
