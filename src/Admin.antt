-- ===== src/Admin.antt =====
-- platform/backend/src/routes/admin.ts. The rows that the database deletes along with a test case
-- or a problem are those of the `onDelete: Cascade` references of the schema.
pub mod Data
pub mod Access
pub mod TagUpsert
pub mod Replace
use judge.Base.{
  ℕ, suc, String, Bool, true, false, not, ◌&&◌, ◌||◌, List, [], ◌∷◌, Option, none, some, map,
  map_from, any, length, str_eq, leb, or_else, if◌then◌else◌,
}
use judge.Schema.{
  Db, Problem, StarterCode, TestCase, Tag, ProblemTag, Submission, SubmissionCase, Discussion,
  DiscussionReply, ContestProblem, DailyProblem,
}
use judge.Prisma.{Prisma, find_first}
use judge.Http.{
  Reply, json, http_error, other_error, Result, ok, Action, pure, gets, or_throw, zod_parse,
  throw_if, modify, respond, ◌>>=◌, ◌>>◌,
}
use judge.Auth.{AuthUser, admin_required}
use judge.Problems.{tags_of, in_order}
use judge.Submit.{insert_all}
use Data.{
  ProblemData, StarterData, CaseData, problem_checks, has_duplicate, same_text, same_language,
  starter_row, case_row, tag_row,
}

pub record ProblemCounts : Type 0 where
  pub problem : Problem
  pub test_case_count : ℕ
  pub submission_count : ℕ

pub record FullProblem : Type 0 where
  pub problem : Problem
  pub starter_codes : List StarterCode
  pub test_cases : List TestCase
  pub tags : List Tag

abbrev pub created_last : Problem → Problem → Bool
created_last p q = leb q.created_at p.created_at

unfoldable pub new_problem : String → ℕ → ProblemData → Problem
new_problem id now d = record {
  id = id;
  slug = d.slug;
  title = d.title;
  statement_md = d.statement_md;
  constraints_md = d.constraints_md;
  difficulty = d.difficulty;
  is_published = d.is_published;
  created_at = now;
}

-- `problem.update`: a member that is undefined leaves its column as it is.
unfoldable pub updated_problem : ProblemData → Problem → Problem
updated_problem d p = record p {
  slug = d.slug;
  title = d.title;
  statement_md = d.statement_md;
  constraints_md = elim d.constraints_md [ none ↦ p.constraints_md | some c ↦ some c ];
  difficulty = d.difficulty;
  is_published = d.is_published;
}

-- The unique keys that the rows of one problem must keep.
unfoldable pub clashes : List String → ProblemData → Bool
clashes tag_ids d = has_duplicate same_text tag_ids || has_duplicate same_language d.starter_codes

-- The case belongs to a test case of the problem.
abbrev pub tests_problem : Db → String → SubmissionCase → Bool
tests_problem db id c =
    any (λ (t : TestCase). str_eq t.problem_id id && str_eq t.id c.test_case_id) db.test_cases

-- Fresh identifiers for the rows that a request creates.
pub record Fresh : Type 0 where
  pub tag : ℕ → String
  pub starter : ℕ → String
  pub test_case : ℕ → String

module _ ⦃prisma : Prisma⦄ where
  -- one round of the loop: `tag.upsert` with an empty update
  unfoldable pub ensure_tag : String → String → Db → String × Db
  ensure_tag fresh slug db = elim (find_first (λ (t : Tag). str_eq t.slug slug) db.tags) [
    | some t ↦ (t.id, db)
    | none ↦ (
      fresh,
      record db { tags = prisma.insert (record { id = fresh; slug = slug; name = slug }) db.tags },
    )
  ]

  unfoldable pub ensure_tags : (ℕ → String) → ℕ → List String → Db → List String × Db
  ensure_tags fresh i [] db = ([], db)
  ensure_tags fresh i (slug ∷ slugs) db =
      let (id, db') = ensure_tag (fresh i) slug db in
      let (ids, db'') = ensure_tags fresh (suc i) slugs db' in (id ∷ ids, db'')

  abbrev pub ensured : (ℕ → String) → List String → Action (List String)
  ensured fresh slugs db = let (ids, db') = ensure_tags fresh 0 slugs db in (ok ids, db')

  -- the rows that `create` nests below a problem
  unfoldable pub create_children : Fresh → String → ProblemData → List String → Db → Db
  create_children fresh id d tag_ids db = record db {
    starter_codes =
        insert_all (map_from (λ i. starter_row (fresh.starter i) id) 0 d.starter_codes)
          db.starter_codes;
    test_cases =
        insert_all (map_from (λ i. case_row (fresh.test_case i) id) 0 d.test_cases) db.test_cases;
    problem_tags = insert_all (map (tag_row id) tag_ids) db.problem_tags;
  }

  -- the three `deleteMany`, and the cases that go with the test cases
  unfoldable pub delete_children : String → Db → Db
  delete_children id db = record db {
    starter_codes = prisma.remove (λ (s : StarterCode). str_eq s.problem_id id) db.starter_codes;
    submission_cases = prisma.remove (tests_problem db id) db.submission_cases;
    test_cases = prisma.remove (λ (t : TestCase). str_eq t.problem_id id) db.test_cases;
    problem_tags = prisma.remove (λ (pt : ProblemTag). str_eq pt.problem_id id) db.problem_tags;
  }

  unfoldable pub replace_problem : Fresh → String → ProblemData → List String → Db → Db
  unfolding delete_children create_children
  replace_problem fresh id d tag_ids db =
      let cleared = delete_children id db in
      create_children fresh id d tag_ids (record cleared {
        problems = prisma.modify (λ (p : Problem). str_eq p.id id) (updated_problem d) db.problems;
      })

  -- GET /problems
  unfoldable pub admin_list : Option AuthUser → Db → Reply (List ProblemCounts) × Db
  admin_list user = admin_required user (
      respond do
        ps ← gets (λ db. prisma.order_by created_last (prisma.find_many (λ p. true) db.problems))
        items ← gets (λ db.
            map
              (λ (p : Problem). record {
                problem = p;
                test_case_count =
                    length
                      (prisma.find_many (λ (t : TestCase). str_eq t.problem_id p.id) db.test_cases);
                submission_count = length (
                    prisma.find_many (λ (s : Submission). str_eq s.problem_id p.id) db.submissions);
              })
              ps)
        pure (json 200 items))

  unfoldable pub full_problem : Problem → Db → FullProblem
  full_problem p db = record {
    problem = p;
    starter_codes =
        prisma.find_many (λ (s : StarterCode). str_eq s.problem_id p.id) db.starter_codes;
    test_cases =
        prisma.order_by in_order
          (prisma.find_many (λ (t : TestCase). str_eq t.problem_id p.id) db.test_cases);
    tags = tags_of db p.id;
  }

  -- GET /problems/:id
  unfoldable pub admin_get : Option AuthUser → String → Db → Reply FullProblem × Db
  admin_get user id = admin_required user (
      respond do
        p ←
            or_throw (← gets (λ db. find_first (λ (p : Problem). str_eq p.id id) db.problems))
              (http_error 404 "problem not found")
        view ← gets (full_problem p)
        pure (json 200 view))

  -- POST /problems
  unfoldable pub admin_create :
      Fresh → Option AuthUser → String → ℕ → Option ProblemData → Db → Reply Problem × Db
  admin_create fresh user id now body = admin_required user (
      respond do
        d ← zod_parse problem_checks body
        tag_ids ← ensured fresh.tag d.tags
        taken ← gets (λ db. any (λ (p : Problem). str_eq p.slug d.slug) db.problems)
        throw_if (taken || clashes tag_ids d) other_error
        modify (λ db. record db { problems = prisma.insert (new_problem id now d) db.problems })
        modify (create_children fresh id d tag_ids)
        pure (json 201 (new_problem id now d)))

  -- PUT /problems/:id; the transaction is done whole or not at all, the tags stay.
  unfoldable pub admin_update :
      Fresh → Option AuthUser → String → Option ProblemData → Db → Reply (Unit {0}) × Db
  admin_update fresh user id body = admin_required user (
      respond do
        d ← zod_parse problem_checks body
        tag_ids ← ensured fresh.tag d.tags
        missing ← gets (λ db. not (any (λ (p : Problem). str_eq p.id id) db.problems))
        taken ←
            gets (λ db.
              any (λ (p : Problem). str_eq p.slug d.slug && not (str_eq p.id id)) db.problems)
        throw_if (missing || taken || clashes tag_ids d) other_error
        modify (replace_problem fresh id d tag_ids)
        pure (json 200 tt))

  -- What the deletion of a problem deletes with it.
  unfoldable pub delete_problem : String → Db → Db
  unfolding delete_children
  delete_problem id db =
      let cleared = delete_children id db in
      record cleared {
        problems = prisma.remove (λ (p : Problem). str_eq p.id id) db.problems;
        submission_cases =
            prisma.remove
              (λ (c : SubmissionCase).
                tests_problem db id c
                || any (λ (s : Submission). str_eq s.problem_id id && str_eq s.id c.submission_id)
                    db.submissions)
              db.submission_cases;
        submissions = prisma.remove (λ (s : Submission). str_eq s.problem_id id) db.submissions;
        discussion_replies =
            prisma.remove
              (λ (r : DiscussionReply).
                any (λ (d : Discussion). str_eq d.problem_id id && str_eq d.id r.discussion_id)
                  db.discussions)
              db.discussion_replies;
        discussions = prisma.remove (λ (d : Discussion). str_eq d.problem_id id) db.discussions;
        contest_problems =
            prisma.remove (λ (p : ContestProblem). str_eq p.problem_id id) db.contest_problems;
        daily_problems =
            prisma.remove (λ (e : DailyProblem). str_eq e.problem_id id) db.daily_problems;
      }

  -- DELETE /problems/:id
  unfoldable pub admin_delete : Option AuthUser → String → Db → Reply (Unit {0}) × Db
  admin_delete user id = admin_required user (
      respond do
        missing ← gets (λ db. not (any (λ (p : Problem). str_eq p.id id) db.problems))
        throw_if missing other_error
        modify (delete_problem id)
        pure (json 200 tt))
