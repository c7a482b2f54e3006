-- ===== src/Tests/Seeding.antt =====
-- Runs of the seed.
use judge.Base.{◌≡◌, refl, true, any, every, count}
use judge.Schema.{Db}
use judge.Prisma.Memory.{memory}
use judge.Http.{ok}
use judge.Seed.Again.{with_slug}
use judge.Seed.Data.{seed_problems}
use judge.Seed.Main.{SeedIds, has_name, seed_main}
use judge.Seed.Users.{is_promoted}
use judge.Seed.Run.{seed_main_lem, seed_main_twice}
use judge.Tests.World.{bcrypt, db, fresh, case_ids}

abbrev ids : SeedIds
ids = record {
  user = case_ids;
  salt = case_ids;
  tag = case_ids;
  problem = case_ids;
  rows = λ n. fresh;
}

abbrev seeded : Db
seeded = (seed_main ⦃prisma = memory⦄ bcrypt ids 10 db).1

seed_main_lem_example :
    ((seed_main ⦃prisma = memory⦄ bcrypt ids 10 db).0 ≡ ok tt)
    × (any (has_name "admin") seeded.users ≡ true)
    × (every is_promoted seeded.users ≡ true)
    × (count (with_slug "fizz-buzz") seeded.problems ≡ 1)
unfolding seed_problems
seed_main_lem_example = seed_main_lem ⦃prisma = memory⦄ bcrypt ids 10 db "fizz-buzz" refl refl

seed_main_twice_example :
    ((seed_main ⦃prisma = memory⦄ bcrypt ids 99 seeded).0 ≡ ok tt)
    × (count (with_slug "fizz-buzz") (seed_main ⦃prisma = memory⦄ bcrypt ids 99 seeded).1.problems
        ≡ count (with_slug "fizz-buzz") seeded.problems)
seed_main_twice_example =
    seed_main_twice ⦃prisma = memory⦄ bcrypt ids ids 10 99 db "fizz-buzz" refl refl
