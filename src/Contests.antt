-- ===== src/Contests.antt =====
-- platform/backend/src/routes/contests.ts
pub mod Standings
pub mod Registration
use judge.Base.{
  ℕ, ◌+◌, String, Bool, true, false, not, ◌&&◌, ◌||◌, List, Option, none, some, map, map_from, take,
  any, length, str_eq, leb, ltb, ◌==◌, if◌then◌else◌,
}
use mathlib.Core.Option
use judge.Schema.{
  Db, User, Problem, Contest, ContestProblem, ContestParticipant, Difficulty, ℤ, leb_ℤ,
}
use judge.Prisma.{Prisma, find_first}
use judge.Http.{Reply, json, http_error, Action, pure, gets, or_throw, modify, respond, ◌>>=◌, ◌>>◌}
use judge.Auth.{AuthUser, auth_required}
use judge.Callback.{is_participant, participant}

pub data ContestState : Type 0 where
  upcoming ended live : ContestState

unfoldable pub contest_state : ℕ → Contest → ContestState
contest_state now c =
    if ltb now c.starts_at then upcoming else if ltb c.ends_at now then ended else live

pub record ContestItem : Type 0 where
  pub id : String
  pub slug : String
  pub title : String
  pub starts_at : ℕ
  pub ends_at : ℕ
  pub participant_count : ℕ
  pub problem_count : ℕ
  pub state : ContestState

abbrev pub starts_later : Contest → Contest → Bool
starts_later c d = leb d.starts_at c.starts_at

pub record ContestProblemView : Type 0 where
  pub slug : Option String
  pub title : Option String
  pub difficulty : Option Difficulty
  pub points : ℕ
  pub order : ℤ

pub record Standing : Type 0 where
  pub rank : ℕ
  pub username : Option String
  pub score : ℕ
  pub last_submission_at : Option ℕ

pub record ContestView : Type 0 where
  pub id : String
  pub slug : String
  pub title : String
  pub description_md : String
  pub starts_at : ℕ
  pub ends_at : ℕ
  pub problems : List ContestProblemView
  pub leaderboard : List Standing

abbrev pub by_order : ContestProblem → ContestProblem → Bool
by_order a b = leb_ℤ a.order b.order

-- ascending, and null after every time, as PostgreSQL sorts
abbrev pub time_le : Option ℕ → Option ℕ → Bool
time_le none none = true
time_le none (some b) = false
time_le (some a) none = true
time_le (some a) (some b) = leb a b

-- `[{ score: 'desc' }, { lastSubmissionAt: 'asc' }]`
unfoldable pub ranks_before : ContestParticipant → ContestParticipant → Bool
ranks_before p q =
    ltb q.score p.score || (p.score == q.score && time_le p.last_submission_at q.last_submission_at)

module _ ⦃prisma : Prisma⦄ where
  contest_item : ℕ → Db → Contest → ContestItem
  unfolding contest_state
  contest_item now db c = record {
    id = c.id;
    slug = c.slug;
    title = c.title;
    starts_at = c.starts_at;
    ends_at = c.ends_at;
    participant_count = length (
        prisma.find_many (λ (p : ContestParticipant). str_eq p.contest_id c.id)
          db.contest_participants);
    problem_count =
        length
          (prisma.find_many (λ (p : ContestProblem). str_eq p.contest_id c.id) db.contest_problems);
    state = contest_state now c;
  }

  -- GET /
  unfoldable pub list_contests : ℕ → Db → Reply (List ContestItem) × Db
  unfolding contest_item
  list_contests now = respond do
    contests ← gets (λ db. prisma.order_by starts_later (prisma.find_many (λ c. true) db.contests))
    items ← gets (λ db. map (contest_item now db) contests)
    pure (json 200 items)

  contest_problem_view : Db → ContestProblem → ContestProblemView
  contest_problem_view db cp =
      let p = find_first (λ (p : Problem). str_eq p.id cp.problem_id) db.problems in
      record {
        slug = Option.map (λ (p : Problem). p.slug) p;
        title = Option.map (λ (p : Problem). p.title) p;
        difficulty = Option.map (λ (p : Problem). p.difficulty) p;
        points = cp.points;
        order = cp.order;
      }

  -- the participants that the page shows, at most 100
  unfoldable pub top_participants : Db → Contest → List ContestParticipant
  top_participants db c = take 100 (
      prisma.order_by ranks_before (
        prisma.find_many (λ (p : ContestParticipant). str_eq p.contest_id c.id)
          db.contest_participants))

  unfoldable pub standing : Db → ℕ → ContestParticipant → Standing
  standing db i p = record {
    rank = i + 1;
    username =
        Option.map (λ (u : User). u.username)
          (find_first (λ (u : User). str_eq u.id p.user_id) db.users);
    score = p.score;
    last_submission_at = p.last_submission_at;
  }

  unfoldable pub standings : Db → Contest → List Standing
  unfolding top_participants standing
  standings db c = map_from (standing db) 0 (top_participants db c)

  contest_view : Contest → Db → ContestView
  unfolding contest_problem_view standings
  contest_view c db = record {
    id = c.id;
    slug = c.slug;
    title = c.title;
    description_md = c.description_md;
    starts_at = c.starts_at;
    ends_at = c.ends_at;
    problems = map (contest_problem_view db) (
        prisma.order_by by_order (
          prisma.find_many (λ (p : ContestProblem). str_eq p.contest_id c.id) db.contest_problems));
    leaderboard = standings db c;
  }

  unfoldable pub find_contest : Db → String → Option Contest
  find_contest db slug = find_first (λ (c : Contest). str_eq c.slug slug) db.contests

  -- GET /:slug
  unfoldable pub get_contest : String → Db → Reply ContestView × Db
  unfolding contest_view
  get_contest slug = respond do
    c ← or_throw (← gets (λ db. find_contest db slug)) (http_error 404 "contest not found")
    view ← gets (contest_view c)
    pure (json 200 view)

  -- `upsert` with `update: {}`
  unfoldable pub add_participant : String → String → Db → Db
  add_participant contest_id user_id db =
      if any (is_participant contest_id user_id) db.contest_participants then db else record db {
        contest_participants =
            prisma.insert (participant contest_id user_id 0 none) db.contest_participants;
      }

  -- POST /:slug/register
  unfoldable pub register_contest : Option AuthUser → String → Db → Reply (Unit {0}) × Db
  register_contest user slug = auth_required user λ u. respond do
    c ← or_throw (← gets (λ db. find_contest db slug)) (http_error 404 "contest not found")
    modify (add_participant c.id u.id)
    pure (json 200 tt)
