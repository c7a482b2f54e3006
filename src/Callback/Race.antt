-- ===== src/Callback/Race.antt =====
-- Several callbacks of one submission at once: the steps between the `await`s of the handler
-- (platform/backend/src/routes/internal.ts), in any order.
use judge.Base.{ℕ, suc, String, ◌≡◌, List, ◌∷◌, ◌++◌, some}
use judge.Schema.{Db, SubmissionCase}
use judge.Prisma.{Prisma, find_first}
use judge.Judge0.{Base64}
use judge.Callback.{Body, Rounding, is_case, write_case, cases_of_submission, recomputed}

-- A callback that has been let in for a test case, that has written its case, and that has read the
-- cases of the submission. One that has written the submission is over.
pub data Job : Type 0 where
  arrived stored : String → Job
  looked : List SubmissionCase → Job

pub record Race : Type 0 where
  pub db : Db
  pub jobs : List Job

module _ ⦃prisma : Prisma⦄ (id : String) (results : String → Body) (base64 : Base64)
    (to_ms : Rounding) where
  -- `finish` writes the submission, and then the contest's score: no step reads the score, so that
  -- nothing is lost by making them one. Without the submission it writes nothing, as the `update` that
  -- throws. A callback without a row, which is answered 404 with nothing written, takes no step:
  -- Callback/Progress.antt shows where neither comes to pass.
  pub data Step : Race → Race → Type 0 where
    store :
        (s : Race) (before after : List Job) (t : String) (c : SubmissionCase)
        → s.jobs ≡ (before ++ arrived t ∷ after)
        → find_first (is_case id t) s.db.submission_cases ≡ some c
        → Step s (record {
          db = write_case base64 to_ms (results t) c s.db;
          jobs = before ++ stored t ∷ after;
        })
    look :
        (s : Race) (before after : List Job) (t : String)
        → s.jobs ≡ (before ++ stored t ∷ after)
        → Step s (record s { jobs = before ++ looked (cases_of_submission id s.db) ∷ after })
    finish :
        (s : Race) (before after : List Job) (cases : List SubmissionCase) (now : ℕ)
        → s.jobs ≡ (before ++ looked cases ∷ after)
        → Step s (record { db = recomputed id cases now s.db; jobs = before ++ after })

  pub data Steps (s : Race) : ℕ → Race → Type 0 where
    none_yet : Steps s 0 s
    one_more : {n : ℕ} {t u : Race} → Steps s n t → Step t u → Steps s (suc n) u
