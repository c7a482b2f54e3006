-- ===== src/Callback/Settled.antt =====
-- Once the results of all its cases have arrived, a submission has the verdict that they combine
-- to: the order of the callbacks and repeated callbacks make no difference.
use judge.Base.{
  ℕ, String, ◌≡◌, refl, ◌∙◌, Bool, true, not, ◌||◌, List, [], ◌∷◌, map, filter, any, every, All,
  Permᴰ, str_eq,
}
use mathlib.Core.List.Permᴰ
use judge.Schema.{Db, Submission, SubmissionCase}
use judge.Prisma.{Prisma}
use judge.Prisma.Rows.{find_first_of_any, every-modify, view-modify}
use judge.Judge0.{Base64}
use judge.Callback.{Body, Rounding, graded_case, grade, is_case}
use judge.Callback.Graded.{of_submission, IsGraded}
use judge.Callback.Handler.{IsGraded-grade}
use judge.Callback.Delivery.{
  IsKeyed, has_verdict, deliver, submission_cases-grade, IsKeyed-grade, has_verdict-grade_self,
  has_verdict-grade, any-grade, grade_204, submission-grade,
}

-- The test cases of the submission's rows.
abbrev pub tests_of : String → Db → List String
tests_of id db =
    map (λ (c : SubmissionCase). c.test_case_id) (filter (of_submission id) db.submission_cases)

abbrev pub There : String → Db → Type 0
There id db = any (λ (s : Submission). str_eq s.id id) db.submissions ≡ true

-- The submission has a row for the test case.
abbrev pub HasCase : String → Db → String → Type 0
HasCase id db t = any (is_case id t) db.submission_cases ≡ true

-- A row of the submission is for a test case in `ts`.
abbrev pub covered : String → List String → SubmissionCase → Bool
covered id ts d = not (of_submission id d) || any (λ t. str_eq t d.test_case_id) ts

module _ (id : String) (key : String → String) (results : String → Body) where
  module _ ⦃prisma : Prisma⦄ (base64 : Base64) (to_ms : Rounding) (now : ℕ) where
    abbrev after : String → Db → Db
    after t db = (grade base64 to_ms (results t) id t now db).1

    HasCase-after :
        (t u : String) (db : Db) → HasCase id db t → HasCase id db u → HasCase id (after t db) u
    unfolding graded_case
    HasCase-after t u db h k =
        let (c, found) = find_first_of_any (is_case id t) db.submission_cases h in
        any-grade id key results base64 to_ms now t c db found (is_case id u) (λ d. refl) ∙ k

    All-HasCase-after :
        (t : String) (db : Db) (ts : List String)
        → HasCase id db t
        → All (HasCase id db) ts
        → All (HasCase id (after t db)) ts
    All-HasCase-after t db [] h k = tt
    All-HasCase-after t db (u ∷ ts) h (k, ks) =
        (HasCase-after t u db h k, All-HasCase-after t db ts h ks)

    tests_of-after :
        (t : String) (db : Db) → HasCase id db t → Permᴰ (tests_of id (after t db)) (tests_of id db)
    unfolding graded_case
    tests_of-after t db h =
        let (c, found) = find_first_of_any (is_case id t) db.submission_cases h in
        rw (submission_cases-grade id key results base64 to_ms now t c db found) (
          view-modify (λ d. d.test_case_id) (of_submission id) (λ d. str_eq d.id c.id)
            (graded_case base64 to_ms (results t)) db.submission_cases (λ d. refl) (λ d. refl))

    covered-after :
        (ts : List String) (t : String) (db : Db)
        → HasCase id db t
        → every (covered id ts) db.submission_cases ≡ true
        → every (covered id ts) (after t db).submission_cases ≡ true
    unfolding graded_case
    covered-after ts t db h k =
        let (c, found) = find_first_of_any (is_case id t) db.submission_cases h in
        rw (submission_cases-grade id key results base64 to_ms now t c db found) (
          every-modify (covered id ts) (λ d. str_eq d.id c.id)
            (graded_case base64 to_ms (results t)) db.submission_cases (λ d w e. e) k)

    -- A verdict that is there stays, whatever is delivered later.
    has_verdict-deliver :
        (u : String) (ts : List String) (db : Db)
        → IsKeyed id key results db.submission_cases
        → All (HasCase id db) ts
        → every (has_verdict id key results u) db.submission_cases ≡ true
        → every
            (has_verdict id key results u)
            (deliver id key results base64 to_ms now ts db).submission_cases
          ≡ true
    unfolding deliver
    has_verdict-deliver u [] db k hs h = h
    has_verdict-deliver u (t ∷ ts) db k (ht, hs) h =
        let (c, found) = find_first_of_any (is_case id t) db.submission_cases ht in
        has_verdict-deliver u ts (after t db)
          (IsKeyed-grade id key results base64 to_ms now t c db found k)
          (All-HasCase-after t db ts ht hs)
          (has_verdict-grade id key results base64 to_ms now t c db found u k h)

    abbrev pub delivered : List String → Db → Db
    delivered = deliver id key results base64 to_ms now

    -- The submission stays.
    pub submission-delivered :
        (ts : List String) (db : Db)
        → All (HasCase id db) ts
        → any (λ (s : Submission). str_eq s.id id) db.submissions ≡ true
        → any (λ (s : Submission). str_eq s.id id) (delivered ts db).submissions ≡ true
    unfolding deliver
    submission-delivered [] db hs h = h
    submission-delivered (t ∷ ts) db (ht, hs) h =
        let (c, found) = find_first_of_any (is_case id t) db.submission_cases ht in
        submission-delivered ts (after t db) (All-HasCase-after t db ts ht hs)
          (submission-grade id key results base64 to_ms now t c db found h)

    -- Every delivered test case has its verdict.
    pub has_verdict-delivered :
        (ts : List String) (db : Db)
        → IsKeyed id key results db.submission_cases
        → All (HasCase id db) ts
        → All
            (λ u. every (has_verdict id key results u) (delivered ts db).submission_cases ≡ true)
            ts
    unfolding deliver
    has_verdict-delivered [] db k hs = tt
    has_verdict-delivered (t ∷ ts) db k (ht, hs) =
        let (c, found) = find_first_of_any (is_case id t) db.submission_cases ht in
        let k' = IsKeyed-grade id key results base64 to_ms now t c db found k in
        let hs' = All-HasCase-after t db ts ht hs in
        (
          has_verdict-deliver t ts (after t db) k' hs'
              (has_verdict-grade_self id key results base64 to_ms now t c db found k),
          has_verdict-delivered ts (after t db) k' hs',
        )

    pub tests_of-delivered :
        (ts : List String) (db : Db)
        → All (HasCase id db) ts
        → Permᴰ (tests_of id (delivered ts db)) (tests_of id db)
    unfolding deliver
    tests_of-delivered [] db hs = Permᴰ.refl _
    tests_of-delivered (t ∷ ts) db (ht, hs) =
        Permᴰ.trans (tests_of-delivered ts (after t db) (All-HasCase-after t db ts ht hs))
          (tests_of-after t db ht)

    pub covered-delivered :
        (us ts : List String) (db : Db)
        → All (HasCase id db) ts
        → every (covered id us) db.submission_cases ≡ true
        → every (covered id us) (delivered ts db).submission_cases ≡ true
    unfolding deliver
    covered-delivered us [] db hs h = h
    covered-delivered us (t ∷ ts) db (ht, hs) h =
        covered-delivered us ts (after t db) (All-HasCase-after t db ts ht hs)
          (covered-after us t db ht h)

    -- The last callback leaves the submission in agreement with its cases.
    pub IsGraded-delivered :
        (t : String) (ts : List String) (db : Db)
        → There id db
        → All (HasCase id db) (t ∷ ts)
        → IsGraded id (delivered (t ∷ ts) db)
    unfolding deliver
    IsGraded-delivered t [] db th (ht, hs) =
        let (c, found) = find_first_of_any (is_case id t) db.submission_cases ht in
        IsGraded-grade base64 to_ms (results t) id t now db (after t db)
          (λ i. (grade_204 id key results base64 to_ms now t c db found th i, after t db))
    IsGraded-delivered t (u ∷ ts) db th (ht, hs) =
        let (c, found) = find_first_of_any (is_case id t) db.submission_cases ht in
        IsGraded-delivered u ts (after t db)
          (submission-grade id key results base64 to_ms now t c db found th)
          (All-HasCase-after t db (u ∷ ts) ht hs)
