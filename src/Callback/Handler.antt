-- ===== src/Callback/Handler.antt =====
-- What a whole callback leaves behind.
use judge.Base.{ℕ, String, ◌≡◌, subst, inl, inr, Option, some, Option-cases, arith}
use judge.Schema.{Db, SubmissionCase}
use judge.Prisma.{Prisma, find_first}
use judge.Http.{Result, ok, throws}
use judge.Judge0.{Base64}
use judge.Submit.Signing.{Crypto}
use judge.Callback.{
  Body, Rounding, Query, ended, recomputed, recompute, grade, write_case, cases_of_submission,
  is_case, callback, outcome,
}
use judge.Callback.Signed.{check_signature_cases}
use judge.Callback.Graded.{of_submission, IsGraded, IsGraded-recomputed}

same_id : (o : Option String) {a b : String} → o ≡ some a → o ≡ some b → a ≡ b
same_id o p q = cc

outcome-eq-ended :
    (r : Result ℕ × Db) (code : ℕ) (db' : Db) → outcome r ≡ (ended code, db') → r ≡ (ok code, db')
unfolding outcome
outcome-eq-ended (ok n, db) code db' e = ground arith
outcome-eq-ended (throws t, db) code db' e = absurd (ground arith)

module _ ⦃prisma : Prisma⦄ where
  -- What a grading that ends with 204 has done: the case was found and written, and all recomputed.
  pub grade-eq-204 :
      (base64 : Base64) (to_ms : Rounding) (body : Body) (id case_id : String) (now : ℕ)
      (db db' : Db)
      → grade base64 to_ms body id case_id now db ≡ (ok 204, db')
      → (c : SubmissionCase) × (find_first (is_case id case_id) db.submission_cases ≡ some c)
        × (db'
            ≡ recomputed id
                (cases_of_submission id (write_case base64 to_ms body c db))
                now
                (write_case base64 to_ms body c db))
  unfolding grade recompute
  grade-eq-204 base64 to_ms body id case_id now db db' e =
      elim (Option-cases (find_first (is_case id case_id) db.submission_cases)) [
        | inl missing ↦ absurd (ground arith)
        | inr (c, found) ↦ (c, found, ground arith)
      ]

  pub IsGraded-grade :
      (base64 : Base64) (to_ms : Rounding) (body : Body) (id case_id : String) (now : ℕ)
      (db db' : Db)
      → grade base64 to_ms body id case_id now db ≡ (ok 204, db')
      → IsGraded id db'
  unfolding cases_of_submission
  IsGraded-grade base64 to_ms body id case_id now db db' e =
      let (c, found, same) = grade-eq-204 base64 to_ms body id case_id now db db' e in
      let db1 = write_case base64 to_ms body c db in
      rw same (
        IsGraded-recomputed id (cases_of_submission id db1) now db1
          (prisma.find_many_perm (of_submission id) db1.submission_cases))

  -- After a callback that is answered by 204, the submission that it names counts its accepted
  -- cases, and once all its cases are final it has their combined verdict.
  pub callback-IsGraded :
      (crypto : Crypto) (secret : Option String) (base64 : Base64) (to_ms : Rounding) (q : Query)
      (body : Body) (now : ℕ) (db db' : Db) (id : String)
      → q.sub_id ≡ some id
      → callback crypto secret base64 to_ms q body now db ≡ (ended 204, db')
      → IsGraded id db'
  unfolding callback
  callback-IsGraded crypto secret base64 to_ms q body now db db' id named e =
      elim (check_signature_cases crypto secret q) [
        | inl none_fits ↦ absurd (ground arith)
        | inr (inl thrown) ↦ absurd (ground arith)
        | inr (inr (s, c, fits, (sub, _, _))) ↦
            subst (λ i. IsGraded i db') (same_id q.sub_id sub named)
              (IsGraded-grade base64 to_ms body s c now db db'
                (outcome-eq-ended _ 204 db' (rw (fits, callback) at e)))
      ]
