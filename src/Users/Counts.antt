-- ===== src/Users/Counts.antt =====
-- The counts of a profile.
use judge.Base.{
  map, take, count, ◌+◌, ◌≡◌, refl, List, [], ◌∷◌, length, String, filter, arith, if◌then◌else◌,
  IsTop,
}
use judge.Schema.{Submission, Db, User, Difficulty, easy, medium, hard}
use judge.Prisma.{Prisma}
use judge.Prisma.Rows.{find_many-IsTop, length-find_many}
use judge.Problems.{same_difficulty}
use judge.Submissions.{newest_first}
use judge.Submissions.Recent.{newest_first-IsOrder}
use judge.Users.{
  recent_item, by_username, solved_of, SolvedProblem, of_difficulty, stats_of, profile,
}

one_difficulty :
    (d : Difficulty)
    → (if same_difficulty d easy then 1 else 0)
        + (if same_difficulty d medium then 1 else 0)
        + (if same_difficulty d hard then 1 else 0)
      ≡ 1
one_difficulty easy = refl
one_difficulty medium = refl
one_difficulty hard = refl

each_difficulty :
    (ps : List SolvedProblem)
    → of_difficulty easy ps + of_difficulty medium ps + of_difficulty hard ps ≡ length ps
unfolding of_difficulty
each_difficulty [] = omega arith
each_difficulty (p ∷ ps) = ground (arith, one_difficulty p.difficulty, each_difficulty ps)

module _ ⦃prisma : Prisma⦄ where
  -- The counts of a profile: the easy, medium and hard problems make up the solved ones, which the
  -- page lists; all submissions of the user are counted; and the recent ones are the newest ten.
  pub profile_counts :
      (username : String) (u : User) (db : Db)
      → (found : List Submission) × ((profile username u db).stats.easy_count
            + (profile username u db).stats.medium_count
            + (profile username u db).stats.hard_count
          ≡ (profile username u db).stats.solved_count)
        × ((profile username u db).stats.solved_count ≡ length (profile username u db).solved)
        × ((profile username u db).stats.submission_count
            ≡ count (by_username db username) db.submissions)
        × ((profile username u db).recent ≡ map (recent_item db) found)
        × IsTop newest_first 10 (filter (by_username db username) db.submissions) found
  unfolding profile stats_of
  profile_counts username u db = (
    take 10
        (prisma.order_by newest_first (prisma.find_many (by_username db username) db.submissions)),
    each_difficulty (solved_of username db),
    refl,
    length-find_many (by_username db username) db.submissions,
    refl,
    find_many-IsTop newest_first 10 (by_username db username) db.submissions newest_first-IsOrder,
  )
