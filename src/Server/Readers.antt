-- ===== src/Server/Readers.antt =====
-- The handlers that only read.
use judge.Base.{ℕ, String, refl, Bool, Option, arith}
use judge.Schema.{Db}
use judge.Prisma.{Prisma}
use judge.Auth.{AuthUser, Jwt}
use judge.Judge0.{Base64, Service}
use judge.Accounts.{Bcrypt, LoginBody, login, logout, me}
use judge.Problems
use judge.Problems.{
  Texts, RunBody, difficulty_of, difficulty_filter, list_problems, get_problem, run_problem,
}
use judge.Submissions
use judge.Submissions.{list_submissions, get_submission}
use judge.Contests.{list_contests, get_contest}
use judge.Discussions.{list_discussions, get_discussion}
use judge.Users.{get_user}
use judge.Leaderboard.{get_leaderboard}
use judge.Tags.{list_tags}
use judge.Admin.{admin_list, admin_get}
use judge.Server.Frames.{Keeps, keeps}

abbrev pub whole : Db → Db
whole db = db

difficulty_filter_reads :
    (texts : Texts) (q : Option String) → Keeps whole (difficulty_filter texts q)
unfolding difficulty_filter
difficulty_filter_reads texts q = record { kept = λ db. ground arith }

module _ ⦃prisma : Prisma⦄ where
  pub list_problems_reads :
      (texts : Texts) (u : Option AuthUser) (q : Problems.ListQuery)
      → Keeps whole (list_problems texts u q)
  unfolding list_problems
  list_problems_reads texts u q = search (keeps, difficulty_filter_reads)

  pub get_problem_reads : (slug : String) → Keeps whole (get_problem slug)
  unfolding get_problem
  get_problem_reads slug = search keeps

  pub run_problem_reads :
      (base64 : Base64) (service : Service) (u : Option AuthUser) (slug : String)
      (body : Option RunBody)
      → Keeps whole (run_problem base64 service u slug body)
  unfolding run_problem
  run_problem_reads base64 service u slug body = search keeps depth 12

  pub login_reads :
      (jwt : Jwt) (secret : Option String) (production : Bool) (bcrypt : Bcrypt) (now : ℕ)
      (body : Option LoginBody)
      → Keeps whole (login jwt secret production bcrypt now body)
  unfolding login
  login_reads jwt secret production bcrypt now body = search keeps depth 12

  pub list_submissions_reads :
      (u : Option AuthUser) (q : Submissions.ListQuery) → Keeps whole (list_submissions u q)
  unfolding list_submissions
  list_submissions_reads u q = search keeps

  pub get_submission_reads : (u : Option AuthUser) (id : String) → Keeps whole (get_submission u id)
  unfolding get_submission
  get_submission_reads u id = search keeps

  pub list_contests_reads : (now : ℕ) → Keeps whole (list_contests now)
  unfolding list_contests
  list_contests_reads now = search keeps

  pub get_contest_reads : (slug : String) → Keeps whole (get_contest slug)
  unfolding get_contest
  get_contest_reads slug = search keeps

  pub list_discussions_reads : (q : Option String) → Keeps whole (list_discussions q)
  unfolding list_discussions
  list_discussions_reads q = search keeps

  pub get_discussion_reads : (id : String) → Keeps whole (get_discussion id)
  unfolding get_discussion
  get_discussion_reads id = search keeps

  pub get_user_reads : (name : String) → Keeps whole (get_user name)
  unfolding get_user
  get_user_reads name = search keeps

  pub get_leaderboard_reads : Keeps whole get_leaderboard
  unfolding get_leaderboard
  get_leaderboard_reads = search keeps

  pub list_tags_reads : (collate : String → String → Bool) → Keeps whole (list_tags collate)
  unfolding list_tags
  list_tags_reads collate = search keeps

pub logout_reads : Keeps whole logout
unfolding logout
logout_reads = record { kept = λ db. refl }

pub me_reads : (u : Option AuthUser) → Keeps whole (me u)
unfolding me
me_reads u = search keeps

module _ ⦃prisma : Prisma⦄ where
  pub admin_list_reads : (u : Option AuthUser) → Keeps whole (admin_list u)
  unfolding admin_list
  admin_list_reads u = search keeps

  pub admin_get_reads : (u : Option AuthUser) (id : String) → Keeps whole (admin_get u id)
  unfolding admin_get
  admin_get_reads u id = search keeps
