-- ===== src/Pipeline/EndToEnd.antt =====
-- From the transaction of `submit` to the verdict.
use mathlib.Core.List.Permᴰ
use judge.Base.{
  ℕ, String, ◌≡◌, refl, sym, ◌∙◌, Bool, true, false, not, ◌||◌, List, [], ◌∷◌, Option, some, map,
  filter, any, every, All, length, Permᴰ, map-perm, any-perm, every_both, str_eq, eq_iff, arith,
  Bool-cases, inl, inr,
}
use judge.Schema.{Db, Submission, SubmissionCase, TestCase, running}
use judge.Prisma.{Prisma}
use judge.Prisma.Rows.{any-modify}
use judge.Judge0.{Base64}
use judge.Submit.{case_rows, write_tokens}
use judge.Callback.{Body, Rounding, is_case}
use judge.Callback.Graded.{of_submission}
use judge.Callback.Delivery.{IsKeyed, deliver, verdict}
use judge.Callback.Settled.{tests_of, HasCase, covered, submission-delivered}
use judge.Callback.Verdict.{has_result, has_result-perm, deliver_settles}
use judge.Pipeline.{write_tokens-waiting}

abbrev tests : String → List SubmissionCase → List String
tests id cases = map (λ (c : SubmissionCase). c.test_case_id) (filter (of_submission id) cases)

abbrev mentions : String → List String → Bool
mentions t ts = any (λ u. str_eq u t) ts

any_case :
    (id t : String) (cases : List SubmissionCase)
    → any (is_case id t) cases
      ≡ any
          (λ u. str_eq u t)
          (map (λ (c : SubmissionCase). c.test_case_id) (filter (of_submission id) cases))
any_case id t [] = refl
any_case id t (c ∷ cases) = ground (arith, any_case id t cases)

members :
    (xs all : List String)
    → ((t : String) → mentions t xs ≡ true → mentions t all ≡ true)
    → All (λ t. mentions t all ≡ true) xs
members [] all f = tt
members (x ∷ xs) all f =
    (f x (ground (arith, eq_iff x x)), members xs all (λ t h. f t (ground (arith, h))))

cover :
    (id : String) (cases : List SubmissionCase) (all : List String)
    → ((t : String) → mentions t (tests id cases) ≡ true → mentions t all ≡ true)
    → every (covered id all) cases ≡ true
cover id [] all f = refl
cover id (d ∷ cases) all f = elim (Bool-cases (of_submission id d)) [
  | inl mine ↦ ground (
    arith,
    mine,
    f d.test_case_id (ground (arith, mine, eq_iff d.test_case_id d.test_case_id)),
    cover id cases all (λ t h. f t (ground (arith, mine, h))),
  )
  | inr other ↦ ground (arith, other, cover id cases all (λ t h. f t (ground (arith, other, h))))
]

All-map :
    {P Q : String → Type 0} (f : (t : String) → P t → Q t) (ts : List String) → All P ts → All Q ts
All-map f [] h = tt
All-map f (t ∷ ts) (h, hs) = (f t h, All-map f ts hs)

-- Test cases that are those of the submission's rows are found, and cover the rows.
delivered_reaches :
    (id : String) (ts : List String) (db : Db)
    → Permᴰ ts (tests_of id db)
    → All (HasCase id db) ts × (every (covered id ts) db.submission_cases ≡ true)
delivered_reaches id ts db p = (
  All-map (λ t h. any_case id t db.submission_cases ∙ sym (any-perm (λ u. str_eq u t) p) ∙ h) ts
      (members ts ts (λ t h. h)),
  cover id db.submission_cases ts (λ t h. any-perm (λ u. str_eq u t) p ∙ h),
)

module _ ⦃prisma : Prisma⦄ (id : String) (case_id : ℕ → String) (cases : List TestCase)
    (tokens : List (Option String)) (rows : List SubmissionCase) (texts : List String)
    (db : Db) where
  submission_there :
      any (λ (s : Submission). str_eq s.id id) db.submissions ≡ true
      → any (λ (s : Submission). str_eq s.id id) (write_tokens id texts rows db).submissions ≡ true
  unfolding write_tokens
  submission_there h =
      any-modify (λ (s : Submission). str_eq s.id id) (λ s. str_eq s.id id)
        (λ s. record s { judge0_tokens = texts; status = running }) db.submissions (λ s. refl)
      ∙ h

  same_tests :
      any (of_submission id) db.submission_cases ≡ false
      → length tokens ≡ length cases
      → case_rows id case_id 0 cases tokens ≡ some rows
      → Permᴰ (tests_of id (write_tokens id texts rows db)) (map (λ (c : TestCase). c.id) cases)
  same_tests fresh answered made =
      (write_tokens-waiting id case_id cases tokens rows db fresh answered made texts).2

  all_reached :
      any (of_submission id) db.submission_cases ≡ false
      → length tokens ≡ length cases
      → case_rows id case_id 0 cases tokens ≡ some rows
      → (ts : List String) → Permᴰ ts (map (λ (c : TestCase). c.id) cases)
      → let db' = write_tokens id texts rows db in
        All (HasCase id db') ts × (every (covered id ts) db'.submission_cases ≡ true)
  all_reached fresh answered made ts order =
      delivered_reaches id ts (write_tokens id texts rows db)
        (Permᴰ.trans order (Permᴰ.symm (same_tests fresh answered made)))

  pub submission_stays :
      any (λ (s : Submission). str_eq s.id id) db.submissions ≡ true
      → any (of_submission id) db.submission_cases ≡ false
      → length tokens ≡ length cases
      → case_rows id case_id 0 cases tokens ≡ some rows
      → (key : String → String) (results : String → Body) (base64 : Base64) (to_ms : Rounding)
        (now : ℕ) (ts : List String)
      → Permᴰ ts (map (λ (c : TestCase). c.id) cases)
      → any
          (λ (s : Submission). str_eq s.id id)
          (deliver id key results base64 to_ms now ts (write_tokens id texts rows db)).submissions
        ≡ true
  submission_stays th fresh answered made key results base64 to_ms now ts order =
      submission-delivered id key results base64 to_ms now ts (write_tokens id texts rows db)
        (all_reached fresh answered made ts order).0 (submission_there th)

  -- Let a submission be created, and no case of it; let Judge0 give a token for each test case,
  -- and let the transaction write the rows, with an identifier for each test case that no other
  -- row has. Then, when one callback for each test case has been handled, in whatever order they
  -- arrive, the submission counts the accepted results among those of all test cases of the
  -- problem, and has their combined verdict if every result is final.
  pub submit_settles :
      any (λ (s : Submission). str_eq s.id id) db.submissions ≡ true
      → any (of_submission id) db.submission_cases ≡ false
      → length tokens ≡ length cases
      → case_rows id case_id 0 cases tokens ≡ some rows
      → (key : String → String) (results : String → Body) (base64 : Base64) (to_ms : Rounding)
        (now : ℕ) (t : String) (ts : List String)
      → IsKeyed id key results (write_tokens id texts rows db).submission_cases
      → Permᴰ (t ∷ ts) (map (λ (c : TestCase). c.id) cases)
      → every
          (λ (s : Submission).
            not (str_eq s.id id)
            || has_result (map (verdict results) (map (λ (c : TestCase). c.id) cases)) s)
          (deliver id key results base64 to_ms now
            (t ∷ ts)
            (write_tokens id texts rows db)).submissions
        ≡ true
  submit_settles th fresh answered made key results base64 to_ms now t ts keyed order =
      every_both
        (λ s. not (str_eq s.id id) || has_result (map (verdict results) (tests_of id db1)) s)
        (λ s. not (str_eq s.id id) || has_result (map (verdict results) (tests_of id db1)) s)
        (λ s.
          not (str_eq s.id id)
          || has_result (map (verdict results) (map (λ (c : TestCase). c.id) cases)) s)
        (λ s p q. rw (← has_result-perm _ _ s (map-perm (verdict results) same)) p) _ settled
        settled
    where
      db1 : Db
      db1 = write_tokens id texts rows db

      same : Permᴰ (tests_of id db1) (map (λ (c : TestCase). c.id) cases)
      same = same_tests fresh answered made

      reached :
          All (HasCase id db1) (t ∷ ts) × (every (covered id (t ∷ ts)) db1.submission_cases ≡ true)
      reached = all_reached fresh answered made (t ∷ ts) order

      settled :
          every
            (λ s. not (str_eq s.id id) || has_result (map (verdict results) (tests_of id db1)) s)
            (deliver id key results base64 to_ms now (t ∷ ts) db1).submissions
          ≡ true
      settled =
          deliver_settles id key results base64 to_ms now t ts db1 (submission_there th) keyed
            reached.0 reached.1
