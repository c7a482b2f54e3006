-- ===== src/Server.antt =====
-- platform/backend/src/server.ts: the middlewares before the routers, and the handlers of all routers on
-- the one state of the process.
pub mod Routes
pub mod Frames
pub mod Readers
pub mod Writers
pub mod Effects
pub mod Safety
use judge.Base.{ℕ, String, Bool, not, ◌&&◌, List, Option, none, some, or_else, if◌then◌else◌}
use judge.Schema.{Db, Discussion, DiscussionReply, Problem}
use judge.Text.Parts.{split}
use judge.Prisma.{Prisma}
use judge.Http.{Reply, json, validation, error_json}
use judge.Auth.{AuthUser, Jwt, Headers, Cookie, auth_optional, admin_required}
use judge.Judge0.{Base64, Service, Language}
use judge.Accounts.{Bcrypt, RegisterBody, LoginBody, Session, register, login, logout, me}
use judge.Problems
use judge.Problems.{
  Texts, ProblemItem, ProblemView, RunBody, RunView, list_problems, get_problem, run_problem,
}
use judge.Submit.{SubmitBody, Env, submit}
use judge.Submit.Signing.{Crypto}
use judge.Callback
use judge.Callback.{Body, Rounding, Outcome, callback}
use judge.Submissions
use judge.Submissions.{SubmissionItem, SubmissionView, list_submissions, get_submission}
use judge.Contests.{ContestItem, ContestView, list_contests, get_contest, register_contest}
use judge.Discussions.{
  DiscussionItem, DiscussionView, CreateBody, list_discussions, get_discussion, create_discussion,
  create_reply, upvote,
}
use judge.Users.{Profile, get_user}
use judge.Daily.{DailyView, get_daily}
use judge.Leaderboard.{Ranked, get_leaderboard}
use judge.Tags.{TagItem, list_tags}
use judge.Languages.{Cache, get_languages}
use judge.Admin.{
  Fresh, ProblemCounts, FullProblem, admin_list, admin_get, admin_create, admin_update,
  admin_delete,
}
use judge.Admin.Data.{ProblemData}
use judge.Server.Routes
use judge.Server.Routes.{Method, Endpoint, route, is_limited}

-- The other services and libraries, and the variables of the environment.
pub record Platform : Type 0 where
  pub jwt : Jwt
  pub jwt_secret : Option String
  pub production : Bool
  pub bcrypt : Bcrypt
  pub is_email : String → Bool
  pub texts : Texts
  pub collate : String → String → Bool
  pub base64 : Base64
  pub service : Service
  pub crypto : Crypto
  pub env : Env
  pub to_ms : Rounding

-- A request, its query and its body as the schemas of the handlers read them, whether the limiter
-- admits it, and what the database and the clock give while it is handled.
pub record Incoming : Type 0 where
  pub method : Method
  pub path : List String
  pub headers : Headers
  pub admitted : Bool
  pub problem_query : Problems.ListQuery
  pub submission_query : Submissions.ListQuery
  pub discussion_query : Option String
  pub callback_query : Callback.Query
  pub register_body : Option RegisterBody
  pub login_body : Option LoginBody
  pub run_body : Option RunBody
  pub submit_body : Option SubmitBody
  pub create_body : Option CreateBody
  pub reply_body : Option String
  pub problem_body : Option ProblemData
  pub result_body : Body
  pub now : ℕ
  pub done : ℕ
  pub id : String
  pub salt : String
  pub ids : ℕ → String
  pub fresh : Fresh

-- The database, and the variable `cache` of the languages router.
pub record Process : Type 0 where
  pub db : Db
  pub cache : Option Cache

pub data Answer : Type 0 where
  unrouted too_many healthy : Answer
  session : Reply Session → Answer
  signed_out : Reply (Option Cookie) → Answer
  own_user : Reply AuthUser → Answer
  problem_list : Reply (List ProblemItem) → Answer
  problem_page : Reply ProblemView → Answer
  run_result : Reply RunView → Answer
  accepted : Reply String → Answer
  submission_list : Reply (List SubmissionItem) → Answer
  submission_page : Reply SubmissionView → Answer
  discussion_list : Reply (List DiscussionItem) → Answer
  discussion_page : Reply DiscussionView → Answer
  discussion_made : Reply Discussion → Answer
  reply_made : Reply DiscussionReply → Answer
  votes : Reply (Option ℕ) → Answer
  contest_list : Reply (List ContestItem) → Answer
  contest_page : Reply ContestView → Answer
  done_reply : Reply (Unit {0}) → Answer
  leaders : Reply (List Ranked) → Answer
  tag_list : Reply (List TagItem) → Answer
  daily_page : Reply (Option DailyView) → Answer
  language_list : Reply (List Language) → Answer
  profile_page : Reply Profile → Answer
  counted_problems : Reply (List ProblemCounts) → Answer
  full_problem : Reply FullProblem → Answer
  problem_made : Reply Problem → Answer
  graded : Outcome → Answer

-- `next()` in the guard of the admin router, with no route behind it
abbrev past_guard : Reply (Unit {0}) → Answer
past_guard (json code body) = unrouted
past_guard validation = done_reply validation
past_guard (error_json code message) = done_reply (error_json code message)

abbrev on_db : {B : Type 0} → (B → Answer) → (Db → B × Db) → Process → Answer × Process
on_db wrap handler s = let (r, db') = handler s.db in (wrap r, record s { db = db' })

module _ ⦃prisma : Prisma⦄ (p : Platform) where
  -- The handler of an endpoint, with the user that the session middleware has found.
  unfoldable pub handle : Incoming → Option AuthUser → Endpoint → Process → Answer × Process
  handle q u Routes.health s = (healthy, s)
  handle q u Routes.register s =
      on_db session
        (register p.jwt p.jwt_secret p.production p.bcrypt p.is_email q.id q.salt q.now
          q.register_body)
        s
  handle q u Routes.login s =
      on_db session (login p.jwt p.jwt_secret p.production p.bcrypt q.now q.login_body) s
  handle q u Routes.logout s = on_db signed_out logout s
  handle q u Routes.me s = on_db own_user (me u) s
  handle q u Routes.problems s = on_db problem_list (list_problems p.texts u q.problem_query) s
  handle q u (Routes.problem slug) s = on_db problem_page (get_problem slug) s
  handle q u (Routes.run slug) s =
      on_db run_result (run_problem p.base64 p.service u slug q.run_body) s
  handle q u (Routes.submit slug) s =
      on_db accepted
        (submit p.crypto p.env p.base64 p.service u slug q.submit_body q.id q.ids q.now) s
  handle q u Routes.submissions s = on_db submission_list (list_submissions u q.submission_query) s
  handle q u (Routes.submission id) s = on_db submission_page (get_submission u id) s
  handle q u Routes.discussions s = on_db discussion_list (list_discussions q.discussion_query) s
  handle q u Routes.create_discussion s =
      on_db discussion_made (create_discussion u q.id q.now q.create_body) s
  handle q u (Routes.discussion id) s = on_db discussion_page (get_discussion id) s
  handle q u (Routes.reply id) s = on_db reply_made (create_reply u id q.id q.now q.reply_body) s
  handle q u (Routes.upvote id) s = on_db votes (upvote u id) s
  handle q u Routes.contests s = on_db contest_list (list_contests q.now) s
  handle q u (Routes.contest slug) s = on_db contest_page (get_contest slug) s
  handle q u (Routes.join slug) s = on_db done_reply (register_contest u slug) s
  handle q u Routes.leaderboard s = on_db leaders get_leaderboard s
  handle q u Routes.tags s = on_db tag_list (list_tags p.collate) s
  handle q u Routes.daily s = on_db daily_page (get_daily q.now) s
  handle q u Routes.languages s =
      let (r, cache') = get_languages p.service q.now q.done s.cache in
      (language_list r, record s { cache = cache' })
  handle q u (Routes.user name) s = on_db profile_page (get_user name) s
  handle q u Routes.admin_list s = on_db counted_problems (admin_list u) s
  handle q u Routes.admin_create s =
      on_db problem_made (admin_create q.fresh u q.id q.now q.problem_body) s
  handle q u Routes.admin_other s = on_db past_guard (admin_required u (λ db. (json 200 tt, db))) s
  handle q u (Routes.admin_get id) s = on_db full_problem (admin_get u id) s
  handle q u (Routes.admin_update id) s =
      on_db done_reply (admin_update q.fresh u id q.problem_body) s
  handle q u (Routes.admin_delete id) s = on_db done_reply (admin_delete u id) s
  handle q u Routes.callback s =
      on_db graded
        (callback p.crypto p.env.callback_secret p.base64 p.to_ms q.callback_query q.result_body
          q.now)
        s

  -- `authOptional`, the limiter, and the routers, in this order.
  unfoldable pub serve : Incoming → Process → Answer × Process
  unfolding handle
  serve q s =
      let u = auth_optional p.jwt p.jwt_secret s.db q.now q.headers in
      if is_limited q.path && not q.admitted
      then (too_many, s)
      else elim (route q.method q.path) [ none ↦ (unrouted, s) | some e ↦ handle q u e s ]

-- `(process.env.CORS_ORIGIN ?? 'http://localhost:3000').split(',')`
unfoldable pub origins : Option String → List String
unfolding split
origins value = split b',' (or_else value "http://localhost:3000")
