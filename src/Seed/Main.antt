-- ===== src/Seed/Main.antt =====
-- `main` of platform/backend/prisma/seed.ts: the users, the tags and the problems, in turn.
use judge.Base.{ℕ, suc, String, Bool, List, [], ◌∷◌, none, any, str_eq, if◌then◌else◌}
use judge.Schema.{Db, User, Tag, Role}
use judge.Prisma.{Prisma}
use judge.Http.{Action, gets, modify, ◌>>=◌, ◌>>◌}
use judge.Accounts.{Bcrypt, create_user}
use judge.Admin.{Fresh}
use judge.Seed.{SeedProblem, upsert_problem}
use judge.Seed.Data.{TagDef, tag_defs, seed_problems}

-- What the database makes up: identifiers, and the salts of bcrypt.
pub record SeedIds : Type 0 where
  pub user : ℕ → String
  pub salt : ℕ → String
  pub tag : ℕ → String
  pub problem : ℕ → String
  pub rows : ℕ → Fresh

pub record SeedUser : Type 0 where
  pub username : String
  pub email : String
  pub password : String
  pub role : Role

abbrev pub admin_user : SeedUser
admin_user = record {
  username = "admin";
  email = "admin@platform.local";
  password = "admin1234";
  role = Role.admin;
}

abbrev pub demo_user : SeedUser
demo_user = record {
  username = "demo";
  email = "demo@platform.local";
  password = "demo1234";
  role = Role.user;
}

unfoldable pub seed_user_row : String → ℕ → String → SeedUser → User
seed_user_row id now password_hash o = record {
  id = id;
  email = o.email;
  username = o.username;
  password_hash = password_hash;
  avatar_url = none;
  bio = none;
  role = o.role;
  rating = 1500;
  created_at = now;
}

abbrev pub has_name : String → User → Bool
has_name name u = str_eq u.username name

-- `update: { role: 'ADMIN' }`
abbrev pub promoted : User → User
promoted u = record u { role = Role.admin }

-- `update: {}`
abbrev pub untouched : User → User
untouched u = u

module _ ⦃prisma : Prisma⦄ where
  -- `user.upsert` by the name; the database refuses a second row with the address.
  unfoldable pub upsert_user : String → ℕ → String → SeedUser → (User → User) → Action (Unit {0})
  unfolding seed_user_row
  upsert_user id now password_hash o update = do
    there ← gets (λ db. any (has_name o.username) db.users)
    (if there
        then modify
            (λ db. record db { users = prisma.modify (has_name o.username) update db.users })
        else create_user (seed_user_row id now password_hash o))

  unfoldable pub upsert_tag : String → TagDef → Db → Db
  upsert_tag id t db =
      if any (λ (r : Tag). str_eq r.slug t.slug) db.tags
      then record db {
        tags =
            prisma.modify (λ (r : Tag). str_eq r.slug t.slug) (λ r. record r { name = t.name })
              db.tags;
      }
      else record db {
        tags = prisma.insert (record { id = id; slug = t.slug; name = t.name }) db.tags;
      }

  unfoldable pub upsert_tags : (ℕ → String) → ℕ → List TagDef → Db → Db
  unfolding upsert_tag
  upsert_tags ids i [] db = db
  upsert_tags ids i (t ∷ ts) db = upsert_tags ids (suc i) ts (upsert_tag (ids i) t db)

  unfoldable pub upsert_problems : SeedIds → ℕ → ℕ → List SeedProblem → Db → Db
  upsert_problems ids now i [] db = db
  upsert_problems ids now i (o ∷ os) db =
      upsert_problems ids now (suc i) os (upsert_problem (ids.rows i) (ids.problem i) now o db)

  unfoldable pub seed_main : Bcrypt → SeedIds → ℕ → Action (Unit {0})
  seed_main bcrypt ids now = do
    upsert_user (ids.user 0) now (bcrypt.hash (ids.salt 0) admin_user.password) admin_user promoted
    upsert_user (ids.user 1) now (bcrypt.hash (ids.salt 1) demo_user.password) demo_user untouched
    modify (upsert_tags ids.tag 0 tag_defs)
    modify (upsert_problems ids now 0 seed_problems)
