-- ===== src/Tests/Races.antt =====
-- Two callbacks at once.
use judge.Base.{String, ◌≡◌, ℕ, refl, ◌+◌, ◌*◌, true, [], ◌∷◌, map, any, every, length, All}
use judge.Prisma.Memory.{memory}
use judge.Grader.{is_final_verdict, judge0_status_to_verdict}
use judge.Callback.{write_case, cases_of_submission, recomputed}
use judge.Callback.Delivery.{verdict}
use judge.Callback.Settled.{tests_of}
use judge.Callback.Race.{
  Race, arrived, stored, looked, Steps, store, look, finish, none_yet, one_more,
}
use judge.Callback.Kept.{has_combined}
use judge.Callback.Interleaved.{start, interleaved_settles}
use judge.Callback.Progress.{IsReady, is_row, interleaved_completes}
use judge.Tests.Grading.{key, db-IsKeyed}
use judge.Tests.World.{plain64, to_ms, results, db, case1, case2}

-- The first callback reads before the second writes, and is over last.
abbrev s0 : Race
s0 = start "s1" key results "t1" ("t2" ∷ []) db

abbrev s1 : Race
s1 = record {
  db = write_case ⦃prisma = memory⦄ plain64 to_ms (results "t1") case1 db;
  jobs = stored "t1" ∷ arrived "t2" ∷ [];
}

abbrev s2 : Race
s2 = record s1 {
  jobs = looked (cases_of_submission ⦃prisma = memory⦄ "s1" s1.db) ∷ arrived "t2" ∷ [];
}

abbrev s3 : Race
s3 = record {
  db = write_case ⦃prisma = memory⦄ plain64 to_ms (results "t2") case2 s2.db;
  jobs = looked (cases_of_submission ⦃prisma = memory⦄ "s1" s1.db) ∷ stored "t2" ∷ [];
}

abbrev s4 : Race
s4 = record s3 {
  jobs =
      looked (cases_of_submission ⦃prisma = memory⦄ "s1" s1.db)
      ∷ looked (cases_of_submission ⦃prisma = memory⦄ "s1" s3.db)
      ∷ [];
}

abbrev s5 : Race
s5 = record {
  db =
      recomputed ⦃prisma = memory⦄ "s1" (cases_of_submission ⦃prisma = memory⦄ "s1" s3.db) 700
        s3.db;
  jobs = looked (cases_of_submission ⦃prisma = memory⦄ "s1" s1.db) ∷ [];
}

abbrev s6 : Race
s6 = record {
  db =
      recomputed ⦃prisma = memory⦄ "s1" (cases_of_submission ⦃prisma = memory⦄ "s1" s1.db) 701
        s5.db;
  jobs = [];
}

two_at_once : Steps ⦃prisma = memory⦄ "s1" results plain64 to_ms s0 6 s6
unfolding write_case memory
two_at_once =
    one_more
      (one_more
        (one_more
          (one_more
            (one_more (one_more none_yet (store s0 [] (arrived "t2" ∷ []) "t1" case1 refl refl))
              (look s1 [] (arrived "t2" ∷ []) "t1" refl))
            (store s2 (looked (cases_of_submission ⦃prisma = memory⦄ "s1" s1.db) ∷ []) [] "t2" case2
              refl refl))
          (look s3 (looked (cases_of_submission ⦃prisma = memory⦄ "s1" s1.db) ∷ []) [] "t2" refl))
        (finish s4 (looked (cases_of_submission ⦃prisma = memory⦄ "s1" s1.db) ∷ []) []
          (cases_of_submission ⦃prisma = memory⦄ "s1" s3.db) 700 refl))
      (finish s5 [] [] (cases_of_submission ⦃prisma = memory⦄ "s1" s1.db) 701 refl)

interleaved_settles_example :
    (◌≡◌ {A = ℕ} 6 (3 * length {A = String} ("t1" ∷ "t2" ∷ [])))
    × (every (has_combined "s1" (map (verdict results) (tests_of "s1" db))) s6.db.submissions
        ≡ true)
unfolding is_final_verdict judge0_status_to_verdict
interleaved_settles_example =
    interleaved_settles "s1" key results ⦃prisma = memory⦄ plain64 to_ms "t1" ("t2" ∷ []) db
      db-IsKeyed refl refl refl two_at_once refl

abbrev IsCombined : Race → Type 0
IsCombined u =
    every (has_combined "s1" (map (verdict results) (tests_of "s1" db))) u.db.submissions ≡ true

interleaved_completes_example :
    All (IsReady "s1" s1.db) s1.jobs
    × (any (is_row "s1") s1.db.submissions ≡ true)
    × ((m : ℕ) × (u : Race) × Steps ⦃prisma = memory⦄ "s1" results plain64 to_ms s1 m u
        × (1 + m ≡ 3 * length {A = String} ("t1" ∷ "t2" ∷ []))
        × (u.jobs ≡ [])
        × (any (is_row "s1") u.db.submissions ≡ true)
        × IsCombined u)
unfolding write_case memory is_final_verdict judge0_status_to_verdict
interleaved_completes_example =
    interleaved_completes "s1" key results ⦃prisma = memory⦄ plain64 to_ms "t1" ("t2" ∷ []) db
      db-IsKeyed refl refl refl (refl, (refl, tt)) refl
      (one_more none_yet (store s0 [] (arrived "t2" ∷ []) "t1" case1 refl refl))
