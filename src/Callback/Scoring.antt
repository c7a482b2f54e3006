-- ===== src/Callback/Scoring.antt =====
-- `updateContestScore` of platform/backend/src/routes/internal.ts.
use judge.Base.{
  ℕ, ◌+◌, String, Bool, ◌&&◌, List, [], ◌∷◌, Option, none, some, map, foldl, any, or_else, str_eq,
  is_key, leb, ltb, if◌then◌else◌,
}
use judge.Schema.{Db, Submission, Contest, ContestProblem, ContestParticipant}
use judge.Prisma.{Prisma, find_first}
use judge.Grader.{is_ac}

-- The `Map` from problems to points: of two entries with one key the later one counts.
unfoldable pub points_of : List ContestProblem → String → Option ℕ
points_of [] k = none
points_of (p ∷ ps) k = elim (points_of ps k) [
  | some v ↦ some v
  | none ↦ if str_eq p.problem_id k then some p.points else none
]

unfoldable pub later : Option ℕ → ℕ → Option ℕ
later none d = some d
later (some m) d = if ltb m d then some d else some m

unfoldable pub score_of : List ContestProblem → List Submission → ℕ
unfolding points_of
score_of problems accepted =
    foldl (λ (sum : ℕ) (s : Submission). sum + or_else (points_of problems s.problem_id) 0) 0
      accepted

abbrev pub is_participant : String → String → ContestParticipant → Bool
is_participant contest_id user_id p = str_eq p.contest_id contest_id && str_eq p.user_id user_id

abbrev pub participant : String → String → ℕ → Option ℕ → ContestParticipant
participant contest_id user_id score last = record {
  contest_id = contest_id;
  user_id = user_id;
  score = score;
  last_submission_at = last;
}

module _ ⦃prisma : Prisma⦄ where
  -- the accepted submissions of the user inside the contest's window, one for each problem
  unfoldable pub accepted_in : Db → Contest → String → List Submission
  accepted_in db c user_id =
      prisma.distinct (λ (s : Submission). s.problem_id)
        (prisma.find_many
          (λ (s : Submission).
            is_key c.id s.contest_id
            && str_eq s.user_id user_id
            && is_ac s.status
            && leb c.starts_at s.created_at
            && leb s.created_at c.ends_at)
          db.submissions)

  -- `upsert`
  unfoldable pub write_score : String → String → ℕ → Option ℕ → Db → Db
  write_score contest_id user_id score last db = record db {
    contest_participants =
        if any (is_participant contest_id user_id) db.contest_participants
        then prisma.modify (is_participant contest_id user_id)
            (λ p. record p { score = score; last_submission_at = last }) db.contest_participants
        else prisma.insert (participant contest_id user_id score last) db.contest_participants;
  }

  unfoldable pub contest_problems_of : Db → String → List ContestProblem
  contest_problems_of db contest_id =
      prisma.find_many (λ (p : ContestProblem). str_eq p.contest_id contest_id) db.contest_problems

  unfoldable pub score_in : String → ℕ → Contest → Db → Db
  unfolding score_of accepted_in write_score contest_problems_of later
  score_in user_id now c db =
      let accepted = accepted_in db c user_id in
      write_score c.id user_id (score_of (contest_problems_of db c.id) accepted)
        (foldl later none (map (λ (s : Submission). or_else s.finished_at now) accepted)) db

  unfoldable pub update_contest_score : String → String → ℕ → Db → Db
  unfolding score_in
  update_contest_score contest_id user_id now db =
      elim (find_first (λ (c : Contest). str_eq c.id contest_id) db.contests) [
        | none ↦ db
        | some c ↦ score_in user_id now c db
      ]
