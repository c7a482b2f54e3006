-- ===== src/Seed.antt =====
-- `upsertProblem` of platform/backend/prisma/seed.ts; the rest of the file is the data that it is
-- called with. The starter codes are the entries of the object, in their order.
pub mod Again
pub mod Data
pub mod Main
pub mod Twice
pub mod Users
pub mod Run
use judge.Base.{true, ℕ, String, List, Option, none, some, map, map_from, any, str_eq}
use judge.Schema.{Db, Problem, Tag, Difficulty}
use judge.Prisma.{Prisma, find_first}
use judge.Problems.{find_problem}
use judge.Submit.{insert_all}
use judge.Admin.{Fresh, delete_children}
use judge.Admin.Data.{StarterData, CaseData, starter_row, case_row, tag_row}

pub record SeedProblem : Type 0 where
  pub slug : String
  pub title : String
  pub difficulty : Difficulty
  pub statement_md : String
  pub constraints_md : Option String
  pub tags : List String
  pub starter : List StarterData
  pub cases : List CaseData

-- The problem that `create` makes: it is published.
unfoldable pub seeded : String → ℕ → SeedProblem → Problem
seeded id now o = record {
  id = id;
  slug = o.slug;
  title = o.title;
  statement_md = o.statement_md;
  constraints_md = o.constraints_md;
  difficulty = o.difficulty;
  is_published = true;
  created_at = now;
}

-- The columns that `update` sets; constraints that are undefined stay.
unfoldable pub reseeded : SeedProblem → Problem → Problem
reseeded o p = record p {
  title = o.title;
  difficulty = o.difficulty;
  statement_md = o.statement_md;
  constraints_md = elim o.constraints_md [ none ↦ p.constraints_md | some c ↦ some c ];
}

module _ ⦃prisma : Prisma⦄ where
  -- `slug: { in: opts.tags }`
  unfoldable pub tag_records : SeedProblem → Db → List Tag
  tag_records o db = prisma.find_many (λ (t : Tag). any (str_eq t.slug) o.tags) db.tags

  -- the rows that `create` nests below the problem
  unfoldable pub seed_children : Fresh → String → SeedProblem → List Tag → Db → Db
  seed_children fresh id o tags db = record db {
    starter_codes =
        insert_all (map_from (λ i. starter_row (fresh.starter i) id) 0 o.starter) db.starter_codes;
    test_cases =
        insert_all (map_from (λ i. case_row (fresh.test_case i) id) 0 o.cases) db.test_cases;
    problem_tags = insert_all (map (λ (t : Tag). tag_row id t.id) tags) db.problem_tags;
  }

  unfoldable pub update_seeded : SeedProblem → String → Db → Db
  update_seeded o id db = record db {
    problems = prisma.modify (λ (p : Problem). str_eq p.id id) (reseeded o) db.problems;
  }

  unfoldable pub upsert_problem : Fresh → String → ℕ → SeedProblem → Db → Db
  unfolding seed_children update_seeded
  upsert_problem fresh id now o db = elim (find_problem db o.slug) [
    | some p ↦
        seed_children fresh p.id o (tag_records o db)
          (update_seeded o p.id (delete_children p.id db))
    | none ↦
        seed_children fresh id o (tag_records o db)
          (record db { problems = prisma.insert (seeded id now o) db.problems })
  ]
