-- ===== src/Leaderboard.antt =====
-- platform/backend/src/routes/leaderboard.ts
pub mod Solved
pub mod Ranking
use judge.Base.{
  sort, ℕ, ◌+◌, String, Bool, ◌&&◌, List, [], ◌∷◌, Option, none, some, map, map_from, take, length,
  str_eq, leb, if◌then◌else◌,
}
use judge.Schema.{Db, User, Submission}
use judge.Prisma.{Prisma, find_first}
use judge.Http.{Reply, json, Action, pure, gets, respond, ◌>>=◌}
use judge.Grader.{is_ac}

-- a row of `groupBy`: `_count.problemId` counts the rows of the group
pub record Group : Type 0 where
  pub user_id : String
  pub count : ℕ

pub record Entry : Type 0 where
  pub username : String
  pub rating : ℕ
  pub solved : ℕ

pub record Ranked : Type 0 where
  pub rank : ℕ
  pub entry : Entry

-- `b._count.problemId - a._count.problemId` and `b.solved - a.solved` are at most 0
abbrev pub more_rows : Group → Group → Bool
more_rows a b = leb b.count a.count

abbrev pub more_solved : Entry → Entry → Bool
more_solved a b = leb b.solved a.solved

-- `{ rank: i + 1, ...r }`
unfoldable pub ranked : ℕ → Entry → Ranked
ranked i e = record { rank = i + 1; entry = e }

module _ ⦃prisma : Prisma⦄ where
  unfoldable pub accepted : Db → List Submission
  accepted db = prisma.find_many (λ (s : Submission). is_ac s.status) db.submissions

  unfoldable pub accepted_by : Db → String → List Submission
  accepted_by db user_id =
      prisma.find_many (λ (s : Submission). str_eq s.user_id user_id && is_ac s.status)
        db.submissions

  -- `groupBy`: one group for each user with an accepted submission
  unfoldable pub groups : Db → List Group
  unfolding accepted
  groups db =
      map
        (λ (s : Submission). record {
          user_id = s.user_id;
          count = length (accepted_by db s.user_id);
        })
        (prisma.distinct (λ (s : Submission). s.user_id) (accepted db))

  -- the 100 groups with the most rows
  unfoldable pub top_groups : Db → List Group
  top_groups db = take 100 (sort more_rows (groups db))

  unfoldable pub solved_by : Db → String → ℕ
  solved_by db user_id =
      length (prisma.distinct (λ (s : Submission). s.problem_id) (accepted_by db user_id))

  unfoldable pub entry : Db → Group → Entry
  entry db g = elim (find_first (λ (u : User). str_eq u.id g.user_id) db.users) [
    | none ↦ record { username = "unknown"; rating = 1500; solved = solved_by db g.user_id }
    | some u ↦ record { username = u.username; rating = u.rating; solved = solved_by db g.user_id }
  ]

  unfoldable pub entries : Db → List Entry
  entries db = sort more_solved (map (entry db) (top_groups db))

  -- GET /
  unfoldable pub get_leaderboard : Db → Reply (List Ranked) × Db
  get_leaderboard = respond do es ← gets entries; pure (json 200 (map_from ranked 0 es))
