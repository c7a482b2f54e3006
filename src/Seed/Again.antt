-- ===== src/Seed/Again.antt =====
-- Seeding once or again.
use judge.Base.{
  ℕ, ◌≡◌, refl, ◌∙◌, Bool, true, false, String, List, [], ◌∷◌, none, some, any, count, length,
  map_from, str_eq, eq_iff, if◌then◌else◌, arith, Option-cases, Bool-cases, inl, inr, ◌⊎◌, ◌<◌, max,
  count_of_any,
}
use judge.Schema.{Db, Problem, Tag}
use judge.Prisma.{Prisma}
use judge.Prisma.Rows.{row_laws, find_first-none, find_first_absent, count-modify}
use judge.Problems.{find_problem}
use judge.Admin.{Fresh, delete_children}
use judge.Admin.Data.{case_row}
use judge.Admin.Replace.{of_problem, count-insert_all, cases_of_new, all_gone}
use judge.Seed.{
  SeedProblem, seeded, reseeded, seed_children, update_seeded, upsert_problem, tag_records,
}

abbrev pub with_slug : String → Problem → Bool
with_slug slug p = str_eq p.slug slug

module _ ⦃prisma : Prisma⦄ where
  -- The identifier of the problem that is seeded: that of the problem which is there, or the new one.
  abbrev pub seeded_id : String → SeedProblem → Db → String
  seeded_id id o db = elim (find_problem db o.slug) [ some p ↦ p.id | none ↦ id ]

  pub same_slugs :
      (slug id : String) (o : SeedProblem) (ps : List Problem)
      → count (λ (p : Problem). with_slug slug (if str_eq p.id id then reseeded o p else p)) ps
        ≡ count (with_slug slug) ps
  unfolding reseeded
  same_slugs slug id o [] = refl
  same_slugs slug id o (p ∷ ps) = ground (arith, same_slugs slug id o ps)

  cases-seed_children :
      (fresh : Fresh) (id : String) (o : SeedProblem) (db : Db) (tags : List Tag)
      → count (of_problem id) db.test_cases ≡ 0
      → count (of_problem id) (seed_children fresh id o tags db).test_cases ≡ length o.cases
  unfolding seed_children
  cases-seed_children fresh id o db tags h =
      count-insert_all (of_problem id) (map_from (λ i. case_row (fresh.test_case i) id) 0 o.cases)
        db.test_cases
      ∙ omega (arith, cases_of_new fresh.test_case id 0 o.cases, h)

  pub upsert_there :
      (fresh : Fresh) (id : String) (now : ℕ) (o : SeedProblem) (p : Problem) (db : Db)
      → find_problem db o.slug ≡ some p
      → upsert_problem fresh id now o db
        ≡ seed_children fresh p.id o
            (tag_records o db)
            (update_seeded o p.id (delete_children p.id db))
  unfolding upsert_problem
  upsert_there fresh id now o p db e = rw (e, upsert_problem) refl

  pub upsert_new :
      (fresh : Fresh) (id : String) (now : ℕ) (o : SeedProblem) (db : Db)
      → find_problem db o.slug ≡ none
      → upsert_problem fresh id now o db
        ≡ seed_children fresh id o
            (tag_records o db)
            (record db { problems = prisma.insert (seeded id now o) db.problems })
  unfolding upsert_problem
  upsert_new fresh id now o db e = rw (e, upsert_problem) refl

  cleared :
      (id : String) (o : SeedProblem) (db : Db)
      → count (of_problem id) (update_seeded o id (delete_children id db)).test_cases ≡ 0
  unfolding update_seeded delete_children
  cleared id o db = all_gone (of_problem id) db.test_cases

  slugs_new :
      (fresh : Fresh) (id : String) (now : ℕ) (o : SeedProblem) (db : Db)
      → find_problem db o.slug ≡ none
      → count
          (with_slug o.slug)
          (seed_children fresh id o
            (tag_records o db)
            (record db { problems = prisma.insert (seeded id now o) db.problems })).problems
        ≡ max 1 (count (with_slug o.slug) db.problems)
  unfolding seed_children find_problem seeded
  slugs_new fresh id now o db e =
      simp row_laws
        (ground (arith, find_first-none (with_slug o.slug) db.problems e, eq_iff o.slug o.slug))

  slugs_there :
      (fresh : Fresh) (id : String) (o : SeedProblem) (p : Problem) (db : Db)
      → find_problem db o.slug ≡ some p
      → count
          (with_slug o.slug)
          (seed_children fresh p.id o
            (tag_records o db)
            (update_seeded o p.id (delete_children p.id db))).problems
        ≡ max 1 (count (with_slug o.slug) db.problems)
  unfolding seed_children find_problem update_seeded delete_children
  slugs_there fresh id o p db e =
      count-modify (with_slug o.slug) (λ (q : Problem). str_eq q.id p.id) (reseeded o) db.problems
      ∙ same_slugs o.slug p.id o db.problems
      ∙ omega (arith, some_there (Bool-cases (any (with_slug o.slug) db.problems)))
    where
      some_there :
          (any (with_slug o.slug) db.problems ≡ true) ⊎ (any (with_slug o.slug) db.problems ≡ false)
          → 0 < count (with_slug o.slug) db.problems
      some_there (inl h) = count_of_any (with_slug o.slug) db.problems h
      some_there (inr h) =
          absurd (ground (arith, find_first_absent (with_slug o.slug) db.problems h, e))

  pub slugs_counted :
      (fresh : Fresh) (id : String) (now : ℕ) (o : SeedProblem) (db : Db)
      → count (with_slug o.slug) (upsert_problem fresh id now o db).problems
        ≡ max 1 (count (with_slug o.slug) db.problems)
  slugs_counted fresh id now o db = elim (Option-cases (find_problem db o.slug)) [
    | inl e ↦ rw (upsert_new fresh id now o db e) (slugs_new fresh id now o db e)
    | inr (p, e) ↦ rw (upsert_there fresh id now o p db e) (slugs_there fresh id o p db e)
  ]

  -- Seeding a problem leaves it with exactly the test cases of the seed, whether it was there or not,
  -- if no test case refers to the new identifier; it adds the problem only where none has its slug.
  pub upsert_problem_again :
      (fresh : Fresh) (id : String) (now : ℕ) (o : SeedProblem) (db : Db)
      → count (of_problem id) db.test_cases ≡ 0
      → (count (of_problem (seeded_id id o db)) (upsert_problem fresh id now o db).test_cases
          ≡ length o.cases)
        × (count (with_slug o.slug) (upsert_problem fresh id now o db).problems
            ≡ max 1 (count (with_slug o.slug) db.problems))
  upsert_problem_again fresh id now o db free = elim (Option-cases (find_problem db o.slug)) [
    | inl e ↦
        rw (upsert_new fresh id now o db e, e, seeded_id)
          (
            cases-seed_children fresh id o
                (record db { problems = prisma.insert (seeded id now o) db.problems })
                (tag_records o db) free,
            slugs_new fresh id now o db e,
          )
    | inr (p, e) ↦
        rw (upsert_there fresh id now o p db e, e, seeded_id)
          (
            cases-seed_children fresh p.id o (update_seeded o p.id (delete_children p.id db))
                (tag_records o db) (cleared p.id o db),
            slugs_there fresh id o p db e,
          )
  ]
