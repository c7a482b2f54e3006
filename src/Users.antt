-- ===== src/Users.antt =====
-- platform/backend/src/routes/users.ts
pub mod Counts
use judge.Base.{
  ℕ, String, Bool, ◌&&◌, List, Option, none, some, map, filter, take, any, length, str_eq, leb,
}
use mathlib.Core.List.{filter_map}
use judge.Schema.{Db, User, Problem, Submission, SubmissionStatus, Difficulty, easy, medium, hard}
use judge.Prisma.{Prisma, find_first}
use judge.Http.{Reply, json, http_error, Action, pure, gets, or_throw, respond, ◌>>=◌}
use judge.Grader.{is_ac}
use judge.Problems.{same_difficulty}
use judge.Submissions.{ProblemRef, problem_ref, newest_first}

pub record UserView : Type 0 where
  pub username : String
  pub avatar_url : Option String
  pub bio : Option String
  pub rating : ℕ
  pub created_at : ℕ

pub record SolvedProblem : Type 0 where
  pub slug : String
  pub title : String
  pub difficulty : Difficulty

pub record Stats : Type 0 where
  pub solved_count : ℕ
  pub submission_count : ℕ
  pub easy_count : ℕ
  pub medium_count : ℕ
  pub hard_count : ℕ

pub record RecentItem : Type 0 where
  pub id : String
  pub problem : Option ProblemRef
  pub status : SubmissionStatus
  pub created_at : ℕ

pub record Profile : Type 0 where
  pub user : UserView
  pub stats : Stats
  pub solved : List SolvedProblem
  pub recent : List RecentItem

-- `user: { username }`
abbrev pub by_username : Db → String → Submission → Bool
by_username db username s =
    any (λ (u : User). str_eq u.id s.user_id && str_eq u.username username) db.users

-- `accepted.filter((a) => a.problem.difficulty === d).length`
unfoldable pub of_difficulty : Difficulty → List SolvedProblem → ℕ
of_difficulty d solved =
    length (filter (λ (p : SolvedProblem). same_difficulty p.difficulty d) solved)

unfoldable pub stats_of : List SolvedProblem → ℕ → Stats
stats_of solved total = record {
  solved_count = length solved;
  submission_count = total;
  easy_count = of_difficulty easy solved;
  medium_count = of_difficulty medium solved;
  hard_count = of_difficulty hard solved;
}

user_view : User → UserView
user_view u = record {
  username = u.username;
  avatar_url = u.avatar_url;
  bio = u.bio;
  rating = u.rating;
  created_at = u.created_at;
}

module _ ⦃prisma : Prisma⦄ where
  -- the problem of a submission, which is there by the references of the schema
  solved_problem : Db → Submission → Option SolvedProblem
  solved_problem db s = elim (find_first (λ (p : Problem). str_eq p.id s.problem_id) db.problems) [
    | none ↦ none
    | some p ↦ some (record { slug = p.slug; title = p.title; difficulty = p.difficulty })
  ]

  -- `accepted`: the accepted submissions of the user, one for each problem
  unfoldable pub solved_of : String → Db → List SolvedProblem
  unfolding solved_problem
  solved_of username db = filter_map (solved_problem db) (
      prisma.distinct (λ (s : Submission). s.problem_id)
        (prisma.find_many (λ (s : Submission). by_username db username s && is_ac s.status)
          db.submissions))

  unfoldable pub recent_item : Db → Submission → RecentItem
  recent_item db s = record {
    id = s.id;
    problem = problem_ref db s.problem_id;
    status = s.status;
    created_at = s.created_at;
  }

  unfoldable pub profile : String → User → Db → Profile
  unfolding stats_of user_view recent_item
  profile username u db =
      let solved = solved_of username db in
      let mine = prisma.find_many (by_username db username) db.submissions in
      record {
        user = user_view u;
        stats = stats_of solved (length mine);
        solved = solved;
        recent = map (recent_item db) (take 10 (prisma.order_by newest_first mine));
      }

  -- GET /:username
  unfoldable pub get_user : String → Db → Reply Profile × Db
  unfolding profile
  get_user username = respond do
    u ←
        or_throw (← gets (λ db. find_first (λ (u : User). str_eq u.username username) db.users))
          (http_error 404 "user not found")
    view ← gets (profile username u)
    pure (json 200 view)
