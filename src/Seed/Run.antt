-- ===== src/Seed/Run.antt =====
-- What a run of the seed leaves, and a second one.
use judge.Base.{
  ℕ, ◌≡◌, refl, ◌∙◌, ap, Bool, true, false, String, List, any, every, count, max, eq_iff,
  if◌then◌else◌, arith,
}
use judge.Schema.{Db, User}
use judge.Prisma.{Prisma}
use judge.Http.{ok}
use judge.Accounts.{Bcrypt}
use judge.Seed.Again.{with_slug}
use judge.Seed.Data.{tag_defs, seed_problems}
use judge.Seed.Main.{
  SeedIds, admin_user, demo_user, seed_user_row, has_name, promoted, untouched, upsert_tags,
  upsert_problems, seed_main,
}
use judge.Seed.Twice.{seeds_slug, slugs-upsert_problems, users-upsert_problems, upsert_tags_else}
use judge.Seed.Users.{
  has_address, AddressFree, upserted, upsert_user_run, any-upserted, is_promoted, admin-is_promoted,
  demo-is_promoted,
}

module _ ⦃prisma : Prisma⦄ (bcrypt : Bcrypt) (ids : SeedIds) (now : ℕ) where
  abbrev with_admin : List User → List User
  with_admin =
      upserted (ids.user 0) now (bcrypt.hash (ids.salt 0) admin_user.password) admin_user promoted

  abbrev with_users : List User → List User
  with_users us =
      upserted (ids.user 1) now (bcrypt.hash (ids.salt 1) demo_user.password) demo_user untouched
        (with_admin us)

  abbrev seeded_db : Db → Db
  seeded_db db =
      upsert_problems ids now 0 seed_problems
        (upsert_tags ids.tag 0 tag_defs (record db { users = with_users db.users }))

  -- The addresses of the seed's users stay free of others.
  module _ (us : List User) where
    admin_free : any (has_address admin_user) (with_admin us) ≡ any (has_address admin_user) us
    unfolding seed_user_row
    admin_free =
        any-upserted (ids.user 0) now (bcrypt.hash (ids.salt 0) admin_user.password) admin_user
          promoted (has_address admin_user) (λ r. refl) us
        ∙ ground (arith, eq_iff "admin" "admin")

    demo_free : any (has_address demo_user) (with_admin us) ≡ any (has_address demo_user) us
    unfolding seed_user_row
    demo_free =
        any-upserted (ids.user 0) now (bcrypt.hash (ids.salt 0) admin_user.password) admin_user
          promoted (has_address demo_user) (λ r. refl) us
        ∙ ground (arith, eq_iff "admin@platform.local" "demo@platform.local")

    still_admin_free :
        any (has_address admin_user) (with_users us) ≡ any (has_address admin_user) us
    unfolding seed_user_row
    still_admin_free =
        any-upserted (ids.user 1) now (bcrypt.hash (ids.salt 1) demo_user.password) demo_user
          untouched (has_address admin_user) (λ r. refl) (with_admin us)
        ∙ ground (arith, admin_free, eq_iff "demo@platform.local" "admin@platform.local")

    still_demo_free : any (has_address demo_user) (with_users us) ≡ any (has_address demo_user) us
    unfolding seed_user_row
    still_demo_free =
        any-upserted (ids.user 1) now (bcrypt.hash (ids.salt 1) demo_user.password) demo_user
          untouched (has_address demo_user) (λ r. refl) (with_admin us)
        ∙ ground (arith, demo_free, eq_iff "demo" "demo")

    admin_there : any (has_name "admin") (with_users us) ≡ true
    unfolding seed_user_row
    admin_there = ground (
      arith,
      any-upserted (ids.user 0) now (bcrypt.hash (ids.salt 0) admin_user.password) admin_user
          promoted (has_name "admin") (λ r. refl) us,
      any-upserted (ids.user 1) now (bcrypt.hash (ids.salt 1) demo_user.password) demo_user
          untouched (has_name "admin") (λ r. refl) (with_admin us),
      eq_iff "admin" "admin",
    )

  seed_main_run :
      (db : Db)
      → AddressFree admin_user db
      → AddressFree demo_user db
      → seed_main bcrypt ids now db ≡ (ok tt, seeded_db db)
  unfolding seed_main
  seed_main_run db free free' = ground (
    arith,
    upsert_user_run (ids.user 0) now (bcrypt.hash (ids.salt 0) admin_user.password) admin_user
        promoted db free,
    upsert_user_run (ids.user 1) now (bcrypt.hash (ids.salt 1) demo_user.password) demo_user
        untouched (record db { users = with_admin db.users }) (demo_free db.users ∙ free'),
  )

  seeded_users : (db : Db) → (seeded_db db).users ≡ with_users db.users
  seeded_users db =
      let t : Db = record db { users = with_users db.users } in
      users-upsert_problems ids now 0 seed_problems (upsert_tags ids.tag 0 tag_defs t)
      ∙ (upsert_tags_else ids.tag 0 tag_defs t).0

  seeded_slugs :
      (k : String) (db : Db)
      → count (with_slug k) (seeded_db db).problems ≡ (
          if any (seeds_slug k) seed_problems
          then max 1 (count (with_slug k) db.problems)
          else count (with_slug k) db.problems)
  seeded_slugs k db =
      let t : Db = record db { users = with_users db.users } in
      slugs-upsert_problems ids now 0 seed_problems k (upsert_tags ids.tag 0 tag_defs t)
      ∙ rw (upsert_tags_else ids.tag 0 tag_defs t).1 refl

  -- Where no other user has their addresses, the seed ends without an error; then there is a user
  -- `admin`, everybody of that name is an administrator, each slug of the seed has a problem, and of
  -- no slug has a problem been added where one was.
  pub seed_main_lem :
      (db : Db) (k : String)
      → AddressFree admin_user db
      → AddressFree demo_user db
      → let (r, db') = seed_main bcrypt ids now db in
        (r ≡ ok tt)
        × (any (has_name "admin") db'.users ≡ true)
        × (every is_promoted db'.users ≡ true)
        × (count (with_slug k) db'.problems ≡ (
            if any (seeds_slug k) seed_problems
            then max 1 (count (with_slug k) db.problems)
            else count (with_slug k) db.problems))
  seed_main_lem db k free free' = rw (seed_main_run db free free') (
    refl,
    rw (seeded_users db) (admin_there db.users),
    rw (seeded_users db) (
        demo-is_promoted (ids.user 1) now (bcrypt.hash (ids.salt 1) demo_user.password)
          (with_admin db.users)
          (admin-is_promoted (ids.user 0) now (bcrypt.hash (ids.salt 0) admin_user.password)
            db.users)),
    seeded_slugs k db,
  )

  run_leaves :
      (db : Db)
      → AddressFree admin_user db
      → AddressFree demo_user db
      → AddressFree admin_user (seed_main bcrypt ids now db).1
        × AddressFree demo_user (seed_main bcrypt ids now db).1
  run_leaves db free free' = rw (seed_main_run db free free') (
    ap (any (has_address admin_user)) (seeded_users db) ∙ still_admin_free db.users ∙ free,
    ap (any (has_address demo_user)) (seeded_users db) ∙ still_demo_free db.users ∙ free',
  )

settled :
    (b : Bool) (n : ℕ)
    → (if b then max 1 (if b then max 1 n else n) else (if b then max 1 n else n))
      ≡ (if b then max 1 n else n)
settled true n = ground arith
settled false n = refl

-- A second run, whatever the database makes up in it, ends without an error as well, and changes the
-- number of problems of no slug.
pub seed_main_twice :
    ⦃prisma : Prisma⦄
    → (bcrypt : Bcrypt) (ids ids' : SeedIds) (now now' : ℕ) (db : Db) (k : String)
    → AddressFree admin_user db
    → AddressFree demo_user db
    → let db' = (seed_main bcrypt ids now db).1 in
      let (r, db'') = seed_main bcrypt ids' now' db' in
      (r ≡ ok tt) × (count (with_slug k) db''.problems ≡ count (with_slug k) db'.problems)
seed_main_twice bcrypt ids ids' now now' db k free free' =
    let left = run_leaves bcrypt ids now db free free' in
    let first = seed_main_lem bcrypt ids now db k free free' in
    let second = seed_main_lem bcrypt ids' now' (seed_main bcrypt ids now db).1 k left.0 left.1 in
    (
      second.0,
      second.3
          ∙ ground (
            arith,
            first.3,
            settled (any (seeds_slug k) seed_problems) (count (with_slug k) db.problems),
          ),
    )
