-- ===== src/Daily/Rotation.antt =====
-- One problem for each day.
use native.Mathlib.Nat.{mod-lt}
use judge.Base.{
  ℕ, ◌/◌, ◌≡◌, refl, ap, ◌∙◌, inl, inr, true, false, not, ◌||◌, List, some, none, any, length,
  get_elem?, get_elem?_of_lt, str_eq, eq_iff, ◌==◌, arith, Option-cases, Bool-cases, every_of_none,
  count_of_any,
}
use judge.Schema.{Db, Problem, DailyProblem}
use judge.Prisma.{Prisma}
use judge.Prisma.Rows.{
  any-insert, find_first-none, find_first_of_any, find_first_where, find_first-every, every-insert,
}
use judge.Http.{pure, bind_ok, json, status, respond, ok}
use judge.Daily.{
  day, midnight, daily_index, find_entry, published, daily_view, entry_for, create_entry, pick,
  get_daily,
}

-- The day's entry, and the database with it: the one that is there, or one for a published problem.
module _ ⦃prisma : Prisma⦄ where
  abbrev pub added : ℕ → Problem → Db → Db
  added today p db = record db {
    daily_problems = prisma.insert (entry_for today p) db.daily_problems;
  }

  index_in_range :
      (today : ℕ) (ps : List Problem)
      → (length ps == 0) ≡ false
      → (p : Problem) × (get_elem? ps (daily_index today (length ps)) ≡ some p)
  unfolding daily_index
  index_in_range today ps h = get_elem?_of_lt ps _ (mod-lt (today / day) (ground arith))

  no_entry :
      (today : ℕ) (db : Db)
      → find_entry today db ≡ none
      → any (λ (f : DailyProblem). f.date == today) db.daily_problems ≡ false
  unfolding find_entry
  no_entry today db e =
      elim (Bool-cases (any (λ (f : DailyProblem). f.date == today) db.daily_problems)) [
        | inl h ↦ absurd (
            omega (
              arith,
              count_of_any _ db.daily_problems h,
              find_first-none (λ (f : DailyProblem). f.date == today) db.daily_problems e,
            ))
        | inr h ↦ h
      ]

  get_daily_there :
      (now : ℕ) (e : DailyProblem) (db : Db)
      → find_entry (midnight now) db ≡ some e
      → get_daily now db ≡ (json 200 (daily_view e db), db)
  unfolding get_daily respond
  get_daily_there now e db h = ground (arith, h)

  get_daily_empty :
      (now : ℕ) (db : Db)
      → find_entry (midnight now) db ≡ none
      → (length (published db) == 0) ≡ true
      → get_daily now db ≡ (json 200 none, db)
  unfolding get_daily respond pick
  get_daily_empty now db h k = ground (arith, h, k)

  create_entry_run :
      (today : ℕ) (p : Problem) (db : Db)
      → any (λ (f : DailyProblem). f.date == today) db.daily_problems ≡ false
      → create_entry (entry_for today p) db ≡ (ok tt, added today p db)
  unfolding create_entry entry_for
  create_entry_run today p db h = rw h refl

  pick_new :
      (today : ℕ) (p : Problem) (db : Db)
      → any (λ (f : DailyProblem). f.date == today) db.daily_problems ≡ false
      → (length (published db) == 0) ≡ false
      → get_elem? (published db) (daily_index today (length (published db))) ≡ some p
      → pick today db ≡ (ok (some (entry_for today p)), added today p db)
  unfolding pick
  pick_new today p db h k e =
      rw (k, e)
        (bind_ok (create_entry (entry_for today p)) (λ _. pure (some (entry_for today p))) db
          (added today p db) tt (create_entry_run today p db h))

  get_daily_new :
      (now : ℕ) (p : Problem) (db : Db)
      → find_entry (midnight now) db ≡ none
      → (length (published db) == 0) ≡ false
      → get_elem? (published db) (daily_index (midnight now) (length (published db))) ≡ some p
      → get_daily now db ≡ (
        json 200 (daily_view (entry_for (midnight now) p) (added (midnight now) p db)),
        added (midnight now) p db,
      )
  unfolding get_daily respond
  get_daily_new now p db h k e =
      ground (arith, h, pick_new (midnight now) p db (no_entry (midnight now) db h) k e)

  entry_eq :
      (today : ℕ) (p : Problem) (e : DailyProblem)
      → (e.date == today) ≡ true
      → str_eq e.problem_id p.id ≡ true
      → e ≡ entry_for today p
  unfolding entry_for
  entry_eq today p e h k = ground (arith, eq_iff e.problem_id p.id)

  -- The entry that was made is the one that is found.
  find_entry-added :
      (today : ℕ) (p : Problem) (db : Db)
      → any (λ (f : DailyProblem). f.date == today) db.daily_problems ≡ false
      → find_entry today (added today p db) ≡ some (entry_for today p)
  unfolding find_entry entry_for
  find_entry-added today p db none_yet =
      let rows = prisma.insert (entry_for today p) db.daily_problems in
      let (e, found) =
        find_first_of_any (λ (f : DailyProblem). f.date == today) rows
          (any-insert (λ (f : DailyProblem). f.date == today) (entry_for today p) db.daily_problems
            ∙ ground arith) in
      found
      ∙ ap some (
          entry_eq today p e (find_first_where (λ (f : DailyProblem). f.date == today) rows found) (
            ground (
              arith,
              find_first_where (λ (f : DailyProblem). f.date == today) rows found,
              find_first-every (λ (f : DailyProblem). f.date == today)
                  (λ f. not (f.date == today) || str_eq f.problem_id p.id) rows
                  (every-insert (λ f. not (f.date == today) || str_eq f.problem_id p.id)
                      (entry_for today p) db.daily_problems
                    ∙ ground (
                      arith,
                      eq_iff p.id p.id,
                      every_of_none (λ (f : DailyProblem). f.date == today)
                          (λ f. str_eq f.problem_id p.id) db.daily_problems none_yet,
                    ))
                  found,
            )))

  -- The day's problem is settled by the first request: the answer is 200 in every case, and any
  -- later request on the same day gets the same answer and writes nothing.
  pub get_daily_settled :
      (now later : ℕ) (db : Db)
      → midnight later ≡ midnight now
      → (status (get_daily now db).0 ≡ 200)
        × (get_daily later (get_daily now db).1 ≡ ((get_daily now db).0, (get_daily now db).1))
  get_daily_settled now later db same = elim (Option-cases (find_entry (midnight now) db)) [
    | inr (e, found) ↦
        rw (get_daily_there now e db found)
          (refl, get_daily_there later e db (ap (λ t. find_entry t db) same ∙ found))
    | inl missing ↦ elim (Bool-cases (length (published db) == 0)) [
      | inl empty ↦
          rw (get_daily_empty now db missing empty)
            (refl, get_daily_empty later db (ap (λ t. find_entry t db) same ∙ missing) empty)
      | inr some_published ↦
          let (p, at) = index_in_range (midnight now) (published db) some_published in
          rw (get_daily_new now p db missing some_published at) (
            refl,
            get_daily_there later (entry_for (midnight now) p) (added (midnight now) p db) (
                ap (λ t. find_entry t (added (midnight now) p db)) same
                ∙ find_entry-added (midnight now) p db (no_entry (midnight now) db missing)),
          )
    ]
  ]
