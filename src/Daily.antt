-- ===== src/Daily.antt =====
-- platform/backend/src/routes/daily.ts
pub mod Rotation
use judge.Base.{
  ℕ, ◌*◌, ◌/◌, ◌%◌, String, Bool, List, Option, none, some, any, length, get_elem?, str_eq, ◌==◌,
  if◌then◌else◌,
}
use judge.Schema.{Db, Problem, DailyProblem, Difficulty}
use judge.Prisma.{Prisma, find_first}
use judge.Http.{
  Reply, json, other_error, Action, pure, gets, or_throw, throw_if, modify, respond, ◌>>=◌, ◌>>◌,
}

-- milliseconds of a day
abbrev pub day : ℕ
day = 86400000

-- `setUTCHours(0, 0, 0, 0)`
unfoldable pub midnight : ℕ → ℕ
midnight now = now / day * day

pub record DailyView : Type 0 where
  pub date : ℕ
  pub slug : String
  pub title : String
  pub difficulty : Difficulty

-- `Math.floor(today.getTime() / 86_400_000) % all.length`
unfoldable pub daily_index : ℕ → ℕ → ℕ
daily_index today n = today / day % n

module _ ⦃prisma : Prisma⦄ where
  unfoldable pub find_entry : ℕ → Db → Option DailyProblem
  find_entry today db = find_first (λ (e : DailyProblem). e.date == today) db.daily_problems

  unfoldable pub published : Db → List Problem
  published db = prisma.find_many (λ (p : Problem). p.is_published) db.problems

  -- `include: { problem: true }`, which is there by the references of the schema
  unfoldable pub daily_view : DailyProblem → Db → Option DailyView
  daily_view e db = elim (find_first (λ (p : Problem). str_eq p.id e.problem_id) db.problems) [
    | none ↦ none
    | some p ↦
        some (record { date = e.date; slug = p.slug; title = p.title; difficulty = p.difficulty })
  ]

  unfoldable pub entry_for : ℕ → Problem → DailyProblem
  entry_for today p = record { date = today; problem_id = p.id }

  -- `dailyProblem.create`: the date is the key of the table.
  unfoldable pub create_entry : DailyProblem → Action (Unit {0})
  create_entry e = do
    taken ← gets (λ db. any (λ (f : DailyProblem). f.date == e.date) db.daily_problems)
    throw_if taken other_error
    modify (λ db. record db { daily_problems = prisma.insert e db.daily_problems })

  -- The branch without an entry: null where no problem is published; an index out of range would
  -- read `undefined`, and throw.
  unfoldable pub pick : ℕ → Action (Option DailyProblem)
  pick today = do
    all ← gets published
    if length all == 0 then pure none else (do
      p ← or_throw (get_elem? all (daily_index today (length all))) other_error
      create_entry (entry_for today p)
      pure (some (entry_for today p)))

  -- GET /
  unfoldable pub get_daily : ℕ → Db → Reply (Option DailyView) × Db
  unfolding pick
  get_daily now = respond do
    found ← gets (find_entry (midnight now))
    e ← elim found [ some e ↦ pure (some e) | none ↦ pick (midnight now) ]
    elim e [
      | none ↦ pure (json 200 none)
      | some e ↦ (do view ← gets (daily_view e); pure (json 200 view))
    ]
