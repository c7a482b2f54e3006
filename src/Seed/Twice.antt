-- ===== src/Seed/Twice.antt =====
-- The seed is run, once or again.
use judge.Base.{
  ℕ, suc, ◌≡◌, refl, subst, ◌∙◌, Bool, true, false, String, List, [], ◌∷◌, any, count, max, str_eq,
  eq_iff, if◌then◌else◌, arith, Option-cases, Bool-cases, inl, inr,
}
use judge.Schema.{Db, Problem}
use judge.Prisma.{Prisma}
use judge.Prisma.Rows.{count-modify, count-insert}
use judge.Problems.{find_problem}
use judge.Admin.{Fresh, delete_children}
use judge.Seed.{SeedProblem, seeded, reseeded, seed_children, update_seeded, upsert_problem}
use judge.Seed.Again.{with_slug, same_slugs, upsert_there, upsert_new, slugs_counted}
use judge.Seed.Data.{TagDef}
use judge.Seed.Main.{SeedIds, upsert_tag, upsert_tags, upsert_problems}

module _ ⦃prisma : Prisma⦄ where
  slugs_other :
      (fresh : Fresh) (id k : String) (now : ℕ) (o : SeedProblem) (db : Db)
      → str_eq o.slug k ≡ false
      → count (with_slug k) (upsert_problem fresh id now o db).problems
        ≡ count (with_slug k) db.problems
  unfolding seed_children update_seeded delete_children seeded
  slugs_other fresh id k now o db other = elim (Option-cases (find_problem db o.slug)) [
    | inl e ↦
        rw (upsert_new fresh id now o db e)
          (count-insert (with_slug k) (seeded id now o) db.problems ∙ ground (arith, other))
    | inr (p, e) ↦ rw (upsert_there fresh id now o p db e) (
        count-modify (with_slug k) (λ (q : Problem). str_eq q.id p.id) (reseeded o) db.problems
        ∙ same_slugs k p.id o db.problems)
  ]

  -- Seeding a problem adds one where none has its slug, and changes the number of no other slug.
  slugs-upsert_problem :
      (fresh : Fresh) (id k : String) (now : ℕ) (o : SeedProblem) (db : Db)
      → count (with_slug k) (upsert_problem fresh id now o db).problems ≡ (
          if str_eq o.slug k
          then max 1 (count (with_slug k) db.problems)
          else count (with_slug k) db.problems)
  slugs-upsert_problem fresh id k now o db = elim (Bool-cases (str_eq o.slug k)) [
    | inl e ↦ rw e (
        subst
          (λ slug.
            count (with_slug slug) (upsert_problem fresh id now o db).problems
            ≡ max 1 (count (with_slug slug) db.problems))
          (same_text e) (slugs_counted fresh id now o db))
    | inr e ↦ rw e (slugs_other fresh id k now o db e)
  ]
    where
      same_text : str_eq o.slug k ≡ true → o.slug ≡ k
      same_text e = ground (arith, eq_iff o.slug k)

  abbrev pub seeds_slug : String → SeedProblem → Bool
  seeds_slug k o = str_eq o.slug k

  pub slugs-upsert_problems :
      (ids : SeedIds) (now i : ℕ) (os : List SeedProblem) (k : String) (db : Db)
      → count (with_slug k) (upsert_problems ids now i os db).problems ≡ (
          if any (seeds_slug k) os
          then max 1 (count (with_slug k) db.problems)
          else count (with_slug k) db.problems)
  unfolding upsert_problems
  slugs-upsert_problems ids now i [] k db = refl
  slugs-upsert_problems ids now i (o ∷ os) k db = ground (
    arith,
    slugs-upsert_problem (ids.rows i) (ids.problem i) k now o db,
    slugs-upsert_problems ids now (suc i) os k
        (upsert_problem (ids.rows i) (ids.problem i) now o db),
  )

  users-upsert_problem :
      (fresh : Fresh) (id : String) (now : ℕ) (o : SeedProblem) (db : Db)
      → (upsert_problem fresh id now o db).users ≡ db.users
  unfolding seed_children update_seeded delete_children
  users-upsert_problem fresh id now o db = elim (Option-cases (find_problem db o.slug)) [
    | inl e ↦ rw (upsert_new fresh id now o db e) refl
    | inr (p, e) ↦ rw (upsert_there fresh id now o p db e) refl
  ]

  pub users-upsert_problems :
      (ids : SeedIds) (now i : ℕ) (os : List SeedProblem) (db : Db)
      → (upsert_problems ids now i os db).users ≡ db.users
  unfolding upsert_problems
  users-upsert_problems ids now i [] db = refl
  users-upsert_problems ids now i (o ∷ os) db =
      users-upsert_problems ids now (suc i) os
        (upsert_problem (ids.rows i) (ids.problem i) now o db)
      ∙ users-upsert_problem (ids.rows i) (ids.problem i) now o db

  -- The tags leave the users and the problems alone.
  upsert_tag_else :
      (id : String) (t : TagDef) (db : Db)
      → ((upsert_tag id t db).users ≡ db.users) × ((upsert_tag id t db).problems ≡ db.problems)
  unfolding upsert_tag
  upsert_tag_else id t db = ground arith

  pub upsert_tags_else :
      (ids : ℕ → String) (i : ℕ) (ts : List TagDef) (db : Db)
      → ((upsert_tags ids i ts db).users ≡ db.users)
        × ((upsert_tags ids i ts db).problems ≡ db.problems)
  unfolding upsert_tags
  upsert_tags_else ids i [] db = (refl, refl)
  upsert_tags_else ids i (t ∷ ts) db = ground (
    arith,
    upsert_tag_else (ids i) t db,
    upsert_tags_else ids (suc i) ts (upsert_tag (ids i) t db),
  )
