-- ===== src/Grader/Verdicts.antt =====
-- The verdicts for Judge0's statuses.
use judge.Base.{ℕ, ◌≡◌, ◌≢◌, ◌↔◌, not, ◌||◌, arith, ◌==◌}
use judge.Schema.{pending, ac, mle}
use judge.Grader.{judge0_status_to_verdict, is_final_verdict}

-- A verdict is final exactly when Judge0 is done with the submission, accepted exactly for
-- status 3, and never 'PENDING' or 'MLE'.
pub judge0_status_to_verdict_lem :
    (id : ℕ)
    → (is_final_verdict (judge0_status_to_verdict id) ≡ not (id == 1 || id == 2))
      × ((judge0_status_to_verdict id ≡ ac) ↔ (id ≡ 3))
      × (judge0_status_to_verdict id ≢ pending)
      × (judge0_status_to_verdict id ≢ mle)
unfolding judge0_status_to_verdict is_final_verdict
judge0_status_to_verdict_lem id = (ground arith, ground arith, ground arith, ground arith)
