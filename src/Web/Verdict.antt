-- ===== src/Web/Verdict.antt =====
-- From the callbacks of a submission to the verdict on the page of its problem.
use judge.Base.{
  ℕ, String, ◌≡◌, refl, sym, subst, ◌∙◌, Bool, true, false, not, ◌||◌, List, [], ◌∷◌, Option, some,
  map, any, every, count, length, Permᴰ, map-perm, every-perm, str_eq, ◌==◌, arith, Bool-cases, inl,
  inr,
}
use judge.Schema.{Db, Submission, SubmissionCase, SubmissionStatus, TestCase}
use judge.Prisma.{Prisma, find_first}
use judge.Prisma.Rows.{find_first_of_any, find_first_where, find_first-every}
use judge.Http.{Reply, json, validation, error_json, respond}
use judge.Auth.{AuthUser, auth_required}
use judge.Grader.{rank, combine_verdicts, is_final_verdict, is_ac}
use judge.Grader.Combine.{rank_injective, combine_verdicts_worst, combine_verdicts-perm}
use judge.Judge0.{Base64}
use judge.Submit.{case_rows, write_tokens}
use judge.Callback.{Body, Rounding}
use judge.Callback.Graded.{of_submission}
use judge.Callback.Delivery.{IsKeyed, deliver, verdict}
use judge.Callback.Verdict.{has_result}
use judge.Pipeline.EndToEnd.{submit_settles, submission_stays}
use judge.Submissions.{SubmissionView, get_submission, submission_view, submission_item}
use judge.Client.{Fetched, fine, request}
use judge.Editor.{Page, SubmissionDetail, poll_answered}
use judge.Editor.Polling.{is_unfinished-is_final_verdict}
use judge.Web.Wire.{fetched}

-- What the page reads of the answer to `/api/submissions/${id}`.
unfoldable pub detail_of : SubmissionView → SubmissionDetail
detail_of v = record {
  id = v.item.id;
  status = v.item.status;
  passed_count = v.item.passed_count;
  total_count = v.item.total_count;
  runtime_ms = v.item.runtime_ms;
  memory_kb = v.item.memory_kb;
  cases = v.cases;
}

abbrev seen : Reply SubmissionView → Reply SubmissionDetail
seen (json code v) = json code (detail_of v)
seen validation = validation
seen (error_json code message) = error_json code message

both :
    {A : Type 0} (p q : A → Bool) (xs : List A)
    → any p xs ≡ true
    → every q xs ≡ true
    → (x : A) × (p x ≡ true) × (q x ≡ true)
both p q [] h k = absurd (ground arith)
both p q (x ∷ xs) h k = elim (Bool-cases (p x)) [
  | inl e ↦ (x, e, ground arith)
  | inr e ↦ both p q xs (ground (arith, e)) (ground arith)
]

combined_final :
    (v : SubmissionStatus) (vs : List SubmissionStatus)
    → every is_final_verdict (v ∷ vs) ≡ true
    → is_final_verdict (combine_verdicts (v ∷ vs)) ≡ true
combined_final v vs h =
    let c = combine_verdicts (v ∷ vs) in
    let (w, same, final) =
      both (λ w. rank w == rank c) is_final_verdict (v ∷ vs) (combine_verdicts_worst v vs).0 h in
    subst (λ x. is_final_verdict x ≡ true) (rank_injective w c (ground (arith, same))) final

-- The combination does not depend on the order, in which there is a first verdict.
all_final :
    {v : SubmissionStatus} {vs ws : List SubmissionStatus}
    → Permᴰ (v ∷ vs) ws
    → every is_final_verdict ws ≡ true
    → is_final_verdict (combine_verdicts ws) ≡ true
all_final {v} {vs} {ws} p h =
    rw (← combine_verdicts-perm (v ∷ vs) ws p)
      (combined_final v vs (every-perm is_final_verdict p ∙ h))

result_of :
    (vs : List SubmissionStatus) (s : Submission)
    → has_result vs s ≡ true
    → every is_final_verdict vs ≡ true
    → (s.status ≡ combine_verdicts vs) × (s.passed_count ≡ count is_ac vs)
result_of vs s h final = (
  rank_injective s.status (combine_verdicts vs) (ground (arith, h, final)),
  ground (arith, h, final),
)

poll_final :
    (id : String) (d : SubmissionDetail) (s : Page)
    → is_final_verdict d.status ≡ true
    → poll_answered id (fine 200 (some d)) [] s
      ≡ record s { submission = some d; busy = false; work = [] }
unfolding poll_answered request
poll_final id d s final = ground (arith, final, is_unfinished-is_final_verdict d.status)

module _ ⦃prisma : Prisma⦄ where
  -- The answer to a poll of a signed-in user.
  abbrev pub polled_from : Db → AuthUser → String → Fetched SubmissionDetail
  polled_from db u id = fetched (seen (get_submission (some u) id db).0)

  -- The page after the answer to its only request.
  abbrev pub after_poll : Db → AuthUser → String → Page → Page
  after_poll db u id s = poll_answered id (polled_from db u id) [] s

  get_submission_run :
      (db : Db) (u : AuthUser) (id : String) (r : Submission)
      → find_first (λ (s : Submission). str_eq s.id id) db.submissions ≡ some r
      → (get_submission (some u) id db).0
        ≡ json 200 (
            submission_view u db r (
              prisma.find_many
                (λ (c : SubmissionCase). str_eq c.submission_id r.id)
                db.submission_cases))
  unfolding get_submission auth_required respond
  get_submission_run db u id r found = ground (arith, found)

  after_poll_found :
      (db : Db) (u : AuthUser) (id : String) (s : Page) (r : Submission)
      → find_first (λ (s : Submission). str_eq s.id id) db.submissions ≡ some r
      → is_final_verdict r.status ≡ true
      → (d : SubmissionDetail) × (d.status ≡ r.status)
        × (d.passed_count ≡ r.passed_count)
        × (after_poll db u id s ≡ record s { submission = some d; busy = false; work = [] })
  unfolding detail_of submission_view submission_item fetched
  after_poll_found db u id s r found final =
      let cases =
        prisma.find_many (λ (c : SubmissionCase). str_eq c.submission_id r.id)
          db.submission_cases in
      let d = detail_of (submission_view u db r cases) in
      (d, refl, refl, rw (get_submission_run db u id r found) (poll_final id d s final))

  -- Let a submission be created, and no case of it; let Judge0 give a token for each test case, let
  -- the transaction write the rows, with an identifier for each test case that no other row has,
  -- and let every result be final. When one callback for each test case has been handled, in
  -- whatever order they arrive, the next poll of a signed-in user ends the waiting: the page shows
  -- the combined verdict of all test cases, and the number of those that are accepted.
  pub verdict_shown :
      (id : String) (case_id : ℕ → String) (cases : List TestCase) (tokens : List (Option String))
      (rows : List SubmissionCase) (texts : List String) (db : Db)
      → any (λ (s : Submission). str_eq s.id id) db.submissions ≡ true
      → any (of_submission id) db.submission_cases ≡ false
      → length tokens ≡ length cases
      → case_rows id case_id 0 cases tokens ≡ some rows
      → (key : String → String) (results : String → Body) (base64 : Base64) (to_ms : Rounding)
        (now : ℕ) (t : String) (ts : List String)
      → IsKeyed id key results (write_tokens id texts rows db).submission_cases
      → Permᴰ (t ∷ ts) (map (λ (c : TestCase). c.id) cases)
      → every is_final_verdict (map (verdict results) (map (λ (c : TestCase). c.id) cases)) ≡ true
      → (u : AuthUser) (s : Page)
      → let graded =
          deliver id key results base64 to_ms now (t ∷ ts) (write_tokens id texts rows db) in
        let verdicts = map (verdict results) (map (λ (c : TestCase). c.id) cases) in
        (d : SubmissionDetail) × (d.status ≡ combine_verdicts verdicts)
        × (d.passed_count ≡ count is_ac verdicts)
        × (after_poll graded u id s ≡ record s { submission = some d; busy = false; work = [] })
  verdict_shown id case_id cases tokens rows texts db th fresh answered made key results base64
        to_ms now t ts keyed order final u s =
      let graded =
        deliver id key results base64 to_ms now (t ∷ ts) (write_tokens id texts rows db) in
      let verdicts = map (verdict results) (map (λ (c : TestCase). c.id) cases) in
      let w = λ (s : Submission). str_eq s.id id in
      let (r, found) = find_first_of_any w graded.submissions (
        submission_stays id case_id cases tokens rows texts db th fresh answered made key results
          base64 to_ms now (t ∷ ts) order) in
      let settled =
        find_first-every w (λ s. not (str_eq s.id id) || has_result verdicts s) graded.submissions
          (submit_settles id case_id cases tokens rows texts db th fresh answered made key results
            base64 to_ms now t ts keyed order)
          found in
      let own = find_first_where w graded.submissions found in
      let (same, passed) = result_of verdicts r (ground (arith, settled, own)) final in
      let (d, status, count, shown) = after_poll_found graded u id s r found (
        subst (λ v. is_final_verdict v ≡ true) (sym same)
          (all_final (map-perm (verdict results) order) final)) in
      (d, status ∙ same, count ∙ passed, shown)
