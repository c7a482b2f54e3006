-- ===== src/Submissions.antt =====
-- platform/backend/src/routes/submissions.ts
pub mod Privacy
pub mod Recent
use judge.Base.{
  ℕ, String, Bool, true, false, ◌&&◌, ◌||◌, List, Option, none, some, map, take, str_eq, leb,
  if◌then◌else◌, truthy, any,
}
use mathlib.Core.Option
use mathlib.Core.List.{filter_map}
use judge.Schema.{
  Db, User, Problem, Submission, SubmissionCase, SubmissionStatus, TestCase, Role, user, admin, ℤ,
}
use judge.Prisma.{Prisma, find_first}
use judge.Http.{Reply, json, http_error, Action, pure, gets, or_throw, respond, ◌>>=◌}
use judge.Auth.{AuthUser, auth_required}

pub record ListQuery : Type 0 where
  pub problem : Option String
  pub mine : Option String

pub record ProblemRef : Type 0 where
  pub slug : String
  pub title : String

-- The problem and the user of a submission are there, by the references of the schema.
pub record SubmissionItem : Type 0 where
  pub id : String
  pub problem : Option ProblemRef
  pub username : Option String
  pub status : SubmissionStatus
  pub language_id : ℕ
  pub runtime_ms : Option ℕ
  pub memory_kb : Option ℕ
  pub passed_count : ℕ
  pub total_count : ℕ
  pub created_at : ℕ

pub record CaseView : Type 0 where
  pub id : String
  pub status : SubmissionStatus
  pub runtime_ms : Option ℕ
  pub memory_kb : Option ℕ
  pub is_sample : Bool
  pub order : ℤ
  pub stdout : Option String
  pub stderr : Option String
  pub compile_output : Option String

pub record SubmissionView : Type 0 where
  pub item : SubmissionItem
  pub source_code : Option String
  pub finished_at : Option ℕ
  pub cases : List CaseView

-- `req.query.mine === 'true'`
abbrev pub mine_only : Option String → Bool
mine_only none = false
mine_only (some s) = str_eq s "true"

abbrev pub is_admin : AuthUser → Bool
is_admin u = elim u.role [ admin ↦ true | user ↦ false ]

abbrev pub newest_first : Submission → Submission → Bool
newest_first s t = leb t.created_at s.created_at

-- `where.userId` and `where.problem`, each where it is set
unfoldable pub list_where : AuthUser → ListQuery → Db → Submission → Bool
list_where u q db s =
    (if mine_only q.mine then str_eq s.user_id u.id else true) && elim (truthy q.problem) [
      | none ↦ true
      | some slug ↦
          any (λ (p : Problem). str_eq p.id s.problem_id && str_eq p.slug slug) db.problems
    ]

-- one element of `cases`; `shown` is `c.testCase.isSample || isOwner`
unfoldable pub case_view : Bool → TestCase → SubmissionCase → CaseView
case_view is_owner t c =
    let shown = t.is_sample || is_owner in
    record {
      id = c.id;
      status = c.status;
      runtime_ms = c.runtime_ms;
      memory_kb = c.memory_kb;
      is_sample = t.is_sample;
      order = t.order;
      stdout = if shown then c.stdout else none;
      stderr = if shown then c.stderr else none;
      compile_output = if shown then c.compile_output else none;
    }

module _ ⦃prisma : Prisma⦄ where
  unfoldable pub problem_ref : Db → String → Option ProblemRef
  problem_ref db id =
      Option.map (λ (p : Problem). record { slug = p.slug; title = p.title })
        (find_first (λ (p : Problem). str_eq p.id id) db.problems)

  unfoldable pub submission_item : Db → Submission → SubmissionItem
  submission_item db s = record {
    id = s.id;
    problem = problem_ref db s.problem_id;
    username =
        Option.map (λ (u : User). u.username)
          (find_first (λ (u : User). str_eq u.id s.user_id) db.users);
    status = s.status;
    language_id = s.language_id;
    runtime_ms = s.runtime_ms;
    memory_kb = s.memory_kb;
    passed_count = s.passed_count;
    total_count = s.total_count;
    created_at = s.created_at;
  }

  unfoldable pub recent_submissions : AuthUser → ListQuery → Db → List Submission
  recent_submissions u q db =
      take 50 (prisma.order_by newest_first (prisma.find_many (list_where u q db) db.submissions))

  -- GET /
  unfoldable pub list_submissions :
      Option AuthUser → ListQuery → Db → Reply (List SubmissionItem) × Db
  list_submissions viewer q = auth_required viewer λ u. respond do
    subs ← gets (recent_submissions u q)
    items ← gets (λ db. map (submission_item db) subs)
    pure (json 200 items)

  -- The rows of `cases` with their test cases, which are there by the references of the schema.
  unfoldable pub case_views : Bool → Db → List SubmissionCase → List CaseView
  case_views is_owner db = filter_map λ c.
      Option.map (λ t. case_view is_owner t c)
        (find_first (λ (t : TestCase). str_eq t.id c.test_case_id) db.test_cases)

  unfoldable pub submission_view : AuthUser → Db → Submission → List SubmissionCase → SubmissionView
  submission_view u db s cases =
      let is_owner = str_eq s.user_id u.id in
      record {
        item = submission_item db s;
        source_code = if is_owner || is_admin u then some s.source_code else none;
        finished_at = s.finished_at;
        cases = case_views is_owner db cases;
      }

  -- GET /:id
  unfoldable pub get_submission : Option AuthUser → String → Db → Reply SubmissionView × Db
  get_submission viewer id = auth_required viewer λ u. respond do
    s ←
        or_throw (← gets (λ db. find_first (λ (s : Submission). str_eq s.id id) db.submissions))
          (http_error 404 "submission not found")
    cases ← gets (λ db.
        prisma.find_many (λ (c : SubmissionCase). str_eq c.submission_id s.id) db.submission_cases)
    view ← gets (λ db. submission_view u db s cases)
    pure (json 200 view)
