-- ===== src/Problems/Views.antt =====
-- What a visitor sees of the problems.
use judge.Base.{
  ◌≡◌, refl, sym, ◌∙◌, true, false, ◌&&◌, String, List, [], ◌∷◌, Option, some, none, any, every,
  count, map, Permᴰ, map-perm, filter, str_eq, arith, every-perm, every_both, Bool-cases, inl, inr,
  any_of_count,
}
use judge.Schema.{Db, Problem, TestCase, Submission, Difficulty}
use judge.Prisma.{Prisma}
use judge.Prisma.Rows.{every-find_many_where, any-find_many}
use judge.Auth.{AuthUser}
use judge.Grader.{is_ac}
use judge.Problems.{
  Texts, ListQuery, sample_view, samples_of, problem_view, problem_item, problem_items, accepted_of,
  list_where, created_before, in_order,
}

module _ ⦃prisma : Prisma⦄ where
  published_where :
      (texts : Texts) (db : Db) (q : ListQuery) (d : Option Difficulty) (p : Problem)
      → list_where texts db q d p ≡ true
      → p.is_published ≡ true
  unfolding list_where
  published_where texts db q d p h = ground arith

  -- The list of problems shows published problems only, all that fit the query, each as its item.
  pub list_published :
      (texts : Texts) (user : Option AuthUser) (q : ListQuery) (d : Option Difficulty) (db : Db)
      → (found : List Problem) × (problem_items texts user q d db
          ≡ map (problem_item db (accepted_of db user)) found)
        × (every (λ (p : Problem). p.is_published) found ≡ true)
        × Permᴰ found (filter (list_where texts db q d) db.problems)
  unfolding problem_items
  list_published texts user q d db = (
    prisma.order_by created_before (prisma.find_many (list_where texts db q d) db.problems),
    refl,
    every-perm _ (
          prisma.order_by_perm created_before
            (prisma.find_many (list_where texts db q d) db.problems))
        ∙ every_both (list_where texts db q d) (list_where texts db q d)
            (λ (p : Problem). p.is_published) (λ p h k. published_where texts db q d p h)
            (prisma.find_many (list_where texts db q d) db.problems)
            (every-find_many_where (list_where texts db q d) db.problems)
            (every-find_many_where (list_where texts db q d) db.problems),
    Permᴰ.trans
        (prisma.order_by_perm created_before
          (prisma.find_many (list_where texts db q d) db.problems))
        (prisma.find_many_perm (list_where texts db q d) db.problems),
  )

  not_any :
      (k : String) (rows : List Submission)
      → count (λ (s : Submission). str_eq s.problem_id k) rows ≡ 0
      → any (λ (s : Submission). str_eq s.problem_id k) rows ≡ false
  not_any k [] h = refl
  not_any k (s ∷ rows) h = ground (arith, not_any k rows)

  any_distinct :
      (k : String) (rows : List Submission)
      → any
          (λ (s : Submission). str_eq s.problem_id k)
          (prisma.distinct (λ (s : Submission). s.problem_id) rows)
        ≡ any (λ (s : Submission). str_eq s.problem_id k) rows
  any_distinct k rows = elim (Bool-cases (any (λ (s : Submission). str_eq s.problem_id k) rows)) [
    | inl e ↦
        any_of_count _ (prisma.distinct (λ (s : Submission). s.problem_id) rows)
          (rw (prisma.distinct_once (λ (s : Submission). s.problem_id) k rows, e) (omega arith))
        ∙ sym e
    | inr e ↦
        not_any k (prisma.distinct (λ (s : Submission). s.problem_id) rows)
          (prisma.distinct_once (λ (s : Submission). s.problem_id) k rows ∙ rw e refl)
        ∙ sym e
  ]

  -- An item of the list is marked as solved for a signed-in user where the user has an accepted
  -- submission to the problem, and never for an anonymous visitor.
  pub problem_item-solved :
      (u : AuthUser) (p : Problem) (db : Db)
      → ((problem_item db (accepted_of db (some u)) p).solved
          ≡ any
              (λ (s : Submission).
                (str_eq s.user_id u.id && is_ac s.status) && str_eq s.problem_id p.id)
              db.submissions)
        × ((problem_item db (accepted_of db none) p).solved ≡ false)
  unfolding problem_item accepted_of
  problem_item-solved u p db = (
    any_distinct p.id (
          prisma.find_many (λ (s : Submission). str_eq s.user_id u.id && is_ac s.status)
            db.submissions)
        ∙ any-find_many (λ (s : Submission). str_eq s.user_id u.id && is_ac s.status)
            (λ (s : Submission). str_eq s.problem_id p.id) db.submissions,
    refl,
  )

  -- The page of a problem shows its sample cases, all of them, and no other test case.
  pub problem_view-samples :
      (p : Problem) (db : Db)
      → Permᴰ (problem_view p db).sample_test_cases (
          map sample_view
            (filter (λ (t : TestCase). str_eq t.problem_id p.id && t.is_sample) db.test_cases))
  unfolding problem_view samples_of
  problem_view-samples p db = map-perm sample_view (
      Permᴰ.trans
        (prisma.order_by_perm in_order (
          prisma.find_many (λ (t : TestCase). str_eq t.problem_id p.id && t.is_sample)
            db.test_cases))
        (prisma.find_many_perm (λ (t : TestCase). str_eq t.problem_id p.id && t.is_sample)
          db.test_cases))
