-- ===== src/Tests/Pages.antt =====
-- The routers of submissions, contests, the leaderboard, the daily problem and languages.
use judge.Base.{
  ◌≡◌, refl, true, List, [], ◌∷◌, none, some, map, filter, any, every, count, length, IsTop, str_eq,
  arith, String, map_from, Permᴰ, IsSorted, eq_iff, ◌+◌, ◌==◌, leb, if◌then◌else◌,
}
use judge.Schema.{Submission, ContestParticipant}
use judge.Prisma.Memory.{memory}
use judge.Http.{json, status}
use judge.Judge0.{list_languages}
use judge.Submissions.{submission_view}
use judge.Submissions.Privacy.{Output, printed, submission_view-private}
use judge.Contests.{Standing, standings, find_contest, register_contest, add_participant}
use judge.Contests.Standings.{from, is_better, name_of, standings_best}
use judge.Contests.Registration.{register_contest_once}
use judge.Callback.{is_participant}
use judge.Leaderboard.{Group, Entry, get_leaderboard}
use judge.Leaderboard.Solved.{HasProblems, is_accepted}
use judge.Leaderboard.Ranking.{row_of, get_leaderboard-ranked}
use judge.Daily.{midnight, get_daily}
use judge.Daily.Rotation.{get_daily_settled}
use judge.Languages.{get_languages, is_active, is_stale}
use judge.Languages.Freshness.{get_languages_cached}
use judge.Tests.World.{db, alice, waiting, case1, case2, contest, service, down, python, cobol}

abbrev carol_row : Submission
carol_row = record waiting { user_id = "u3" }

abbrev other : Output
other = record { stdout = some "secret"; stderr = none; compile_output = none }

submission_view-private_example :
    submission_view ⦃prisma = memory⦄ alice db
      (record carol_row { source_code = "other" })
      (map (printed ⦃prisma = memory⦄ db (λ c. other)) (case1 ∷ case2 ∷ []))
    ≡ submission_view ⦃prisma = memory⦄ alice db carol_row (case1 ∷ case2 ∷ [])
submission_view-private_example =
    submission_view-private ⦃prisma = memory⦄ alice db carol_row (case1 ∷ case2 ∷ []) refl refl
      "other" (λ c. other)

standings_best_example :
    (found : List ContestParticipant) × IsTop is_better 100
      (filter (λ (p : ContestParticipant). str_eq p.contest_id "c1") db.contest_participants)
      found
    × (map (λ (s : Standing). s.rank) (standings ⦃prisma = memory⦄ db contest)
        ≡ from 1 (length found))
    × (map (λ (s : Standing). s.username) (standings ⦃prisma = memory⦄ db contest)
        ≡ map (name_of ⦃prisma = memory⦄ db) found)
    × (map (λ (s : Standing). s.score) (standings ⦃prisma = memory⦄ db contest)
        ≡ map (λ (p : ContestParticipant). p.score) found)
    × (map (λ (s : Standing). s.last_submission_at) (standings ⦃prisma = memory⦄ db contest)
        ≡ map (λ (p : ContestParticipant). p.last_submission_at) found)
standings_best_example = standings_best ⦃prisma = memory⦄ db contest

register_contest_once_example :
    (register_contest ⦃prisma = memory⦄ (some alice) "cup" db
      ≡ (json 200 tt, add_participant ⦃prisma = memory⦄ "c1" "u1" db))
    × (count
          (λ p. true)
          (register_contest ⦃prisma = memory⦄ (some alice) "cup" db).1.contest_participants
        ≡ 2)
    × (any
          (is_participant "c1" "u1")
          (register_contest ⦃prisma = memory⦄ (some alice) "cup" db).1.contest_participants
        ≡ true)
    × (register_contest ⦃prisma = memory⦄
          (some alice)
          "cup"
          (add_participant ⦃prisma = memory⦄ "c1" "u1" db)
        ≡ (json 200 tt, add_participant ⦃prisma = memory⦄ "c1" "u1" db))
unfolding find_contest memory
register_contest_once_example =
    register_contest_once ⦃prisma = memory⦄ alice "cup" contest db refl (λ p. true)

db-HasProblems : HasProblems db
db-HasProblems = record {
  once = λ id. ground (arith, eq_iff "p1" id, eq_iff "p2" id, eq_iff "p1" "p2");
  there = refl;
}

get_leaderboard-ranked_example :
    (all : List Group) × (chosen : List Group) × (shown : List Entry) × (get_leaderboard
        ⦃prisma = memory⦄ db
      ≡ (json 200 (map_from (λ i e. record { rank = i + 1; entry = e }) 0 shown), db))
    × ((id : String)
        → count (λ (g : Group). str_eq g.user_id id) all
          ≡ (if any (is_accepted id) db.submissions then 1 else 0))
    × (every (λ (g : Group). g.count == count (is_accepted g.user_id) db.submissions) all ≡ true)
    × IsTop (λ (g h : Group). leb h.count g.count) 100 all chosen
    × Permᴰ shown (map (λ (g : Group). row_of ⦃prisma = memory⦄ db g.user_id) chosen)
    × IsSorted (λ (d e : Entry). leb e.solved d.solved) shown
get_leaderboard-ranked_example = get_leaderboard-ranked ⦃prisma = memory⦄ db db-HasProblems

get_daily_settled_example :
    (status (get_daily ⦃prisma = memory⦄ 90000000 db).0 ≡ 200)
    × (get_daily ⦃prisma = memory⦄ 90000500 (get_daily ⦃prisma = memory⦄ 90000000 db).1 ≡ (
      (get_daily ⦃prisma = memory⦄ 90000000 db).0,
      (get_daily ⦃prisma = memory⦄ 90000000 db).1,
    ))
unfolding midnight
get_daily_settled_example = get_daily_settled ⦃prisma = memory⦄ 90000000 90000500 db refl

get_languages_cached_example :
    (get_languages down 200000 200001 (get_languages service 1000 1500 none).1
      ≡ get_languages service 1000 1500 none)
    × ((get_languages service 1000 1500 none).0 ≡ json 200 (python ∷ []))
    × (every is_active (python ∷ []) ≡ true)
unfolding is_stale list_languages
get_languages_cached_example =
    get_languages_cached service 1000 1500 none (python ∷ cobol ∷ []) refl refl down 200000 200001
      (omega arith)
