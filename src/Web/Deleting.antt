-- ===== src/Web/Deleting.antt =====
-- Deletions from the administrator's list: one agrees with the server, and two that overlap bring
-- the first row back.
use judge.Base.{
  ◌≡◌, ◌≢◌, refl, ◌∙◌, sym, String, Bool, true, not, ◌&&◌, List, [], ◌∷◌, some, map, filter, any,
  count, arith, str_eq, eq_iff, length, count-perm, count-map, count-filter, Bool-cases, inl, inr,
}
use judge.Schema.{Db, Problem, TestCase, Submission}
use judge.Prisma.{Prisma}
use judge.Prisma.Rows.{count-remove, count-find_many, length-find_many}
use judge.Http.{json, respond}
use judge.Auth.{AuthUser, admin_required}
use judge.Schema.{Role}
use judge.Web.Wire.{fetched}
use judge.Admin.{
  ProblemCounts, admin_list, admin_delete, delete_problem, delete_children, created_last,
}
use judge.Client.{fine, request}
use judge.Web.AdminList.{AdminHome, new_home, problems_answered, del, del_answered, is_other}

-- The rows that the server lists: each problem with the numbers of its test cases and submissions.
module _ ⦃prisma : Prisma⦄ where
  abbrev pub counts_of : Db → Problem → ProblemCounts
  counts_of db p = record {
    problem = p;
    test_case_count =
        length (prisma.find_many (λ (t : TestCase). str_eq t.problem_id p.id) db.test_cases);
    submission_count =
        length (prisma.find_many (λ (s : Submission). str_eq s.problem_id p.id) db.submissions);
  }

  abbrev pub listed : Db → List ProblemCounts
  listed db =
      map (counts_of db) (prisma.order_by created_last (prisma.find_many (λ p. true) db.problems))

-- Rows of another key are not touched.
count_others :
    {R : Type 0} (key : R → String) (id k : String) (rows : List R)
    → k ≢ id
    → count (λ r. not (str_eq (key r) id) && str_eq (key r) k) rows
      ≡ count (λ r. str_eq (key r) k) rows
count_others key id k [] h = refl
count_others key id k (r ∷ rows) h =
    ground (arith, h, eq_iff (key r) id, eq_iff (key r) k, count_others key id k rows h)

module _ ⦃prisma : Prisma⦄ where
  counts_of-delete_problem :
      (id : String) (db : Db) (p : Problem)
      → p.id ≢ id
      → counts_of (delete_problem id db) p ≡ counts_of db p
  unfolding delete_problem delete_children
  counts_of-delete_problem id db p h =
      let cases : length (
            prisma.find_many (λ (t : TestCase). str_eq t.problem_id p.id)
              (delete_problem id db).test_cases)
          ≡ length (prisma.find_many (λ (t : TestCase). str_eq t.problem_id p.id) db.test_cases) =
        length-find_many _ _
        ∙ count-remove _ _ db.test_cases
        ∙ count_others (λ (t : TestCase). t.problem_id) id p.id db.test_cases h
        ∙ sym (length-find_many _ _) in
      let subs : length (
            prisma.find_many (λ (t : Submission). str_eq t.problem_id p.id)
              (delete_problem id db).submissions)
          ≡ length
              (prisma.find_many (λ (t : Submission). str_eq t.problem_id p.id) db.submissions) =
        length-find_many _ _
        ∙ count-remove _ _ db.submissions
        ∙ count_others (λ (t : Submission). t.problem_id) id p.id db.submissions h
        ∙ sym (length-find_many _ _) in
      cc (cases, subs)

  count-listed :
      (q : ProblemCounts → Bool) (db : Db)
      → count q (listed db) ≡ count (λ p. q (counts_of db p)) db.problems
  count-listed q db =
      count-map (counts_of db) q _
      ∙ count-perm (λ p. q (counts_of db p))
          (prisma.order_by_perm created_last (prisma.find_many (λ p. true) db.problems))
      ∙ count-find_many (λ p. true) (λ p. q (counts_of db p)) db.problems

  count-listed_deleted :
      (q : ProblemCounts → Bool) (id : String) (db : Db)
      → count q (listed (delete_problem id db))
        ≡ count
            (λ (p : Problem). not (str_eq p.id id) && q (counts_of (delete_problem id db) p))
            db.problems
  count-listed_deleted q id db =
      count-listed q (delete_problem id db)
      ∙ unfold delete_problem in
        count-remove (λ p. q (counts_of (delete_problem id db) p)) (λ (p : Problem). str_eq p.id id)
          db.problems

  count-kept :
      (q : ProblemCounts → Bool) (id : String) (db : Db) (rows : List Problem)
      → count (λ (p : Problem). not (str_eq p.id id) && q (counts_of db p)) rows
        ≡ count
            (λ (p : Problem). not (str_eq p.id id) && q (counts_of (delete_problem id db) p))
            rows
  count-kept q id db [] = refl
  count-kept q id db (p ∷ rows) = elim (Bool-cases (str_eq p.id id)) [
    | inl e ↦ rw e (omega (arith, count-kept q id db rows))
    | inr e ↦
        rw (e, counts_of-delete_problem id db p (ground (arith, eq_iff p.id id)))
          (omega (arith, count-kept q id db rows))
  ]

  -- The rows that stay on the page are those that the server lists afterwards.
  filtered-listed :
      (q : ProblemCounts → Bool) (id : String) (db : Db)
      → count q (filter (is_other id) (listed db)) ≡ count q (listed (delete_problem id db))
  filtered-listed q id db =
      count-filter (is_other id) q (listed db)
      ∙ count-listed (λ p. is_other id p && q p) db
      ∙ count-kept q id db db.problems
      ∙ sym (count-listed_deleted q id db)

  module _ (u : AuthUser) (h : u.role ≡ Role.admin) where
    admin_list-listed : (db : Db) → admin_list (some u) db ≡ (json 200 (listed db), db)
    unfolding admin_list admin_required respond
    admin_list-listed db = rw h refl

    admin_delete_ok :
        (id : String) (db : Db)
        → any (λ (p : Problem). str_eq p.id id) db.problems ≡ true
        → admin_delete (some u) id db ≡ (json 200 tt, delete_problem id db)
    unfolding admin_delete admin_required respond
    admin_delete_ok id db there = rw h (ground (arith, there))

    abbrev pub page_of : Db → AdminHome
    page_of db = problems_answered (fetched (admin_list (some u) db).0) new_home

    -- On an administrator's page, deleting a problem that is there leaves the rows, with their
    -- numbers, that the page would have if it were loaded anew.
    pub delete_agrees :
        (id : String) (db : Db) (q : ProblemCounts → Bool)
        → any (λ (p : Problem). str_eq p.id id) db.problems ≡ true
        → let (r, db') = admin_delete (some u) id db in
          count q (del_answered (fetched r) (del id (page_of db)) (page_of db)).items
          ≡ count q (page_of db').items
    unfolding problems_answered fetched request new_home del del_answered
    delete_agrees id db q there =
        rw
          (
            admin_delete_ok id db there,
            admin_list-listed db,
            admin_list-listed (delete_problem id db),
          )
          (filtered-listed q id db)

-- Two deletions that are both under way when the first is answered: after both, the page again shows
-- the row of the first, if it had it, although both are gone from the server.
pub overlapping_deletes :
    (a b : String) (s : AdminHome)
    → a ≢ b
    → any (λ (p : ProblemCounts). str_eq p.problem.id a) s.items ≡ true
    → any
        (λ (p : ProblemCounts). str_eq p.problem.id a)
        (del_answered
          (fine 200 (some tt))
          (del b s)
          (del_answered (fine 200 (some tt)) (del a s) s)).items
      ≡ true
unfolding del_answered del request
overlapping_deletes a b s h there = still s.items there
  where
    still :
        (items : List ProblemCounts)
        → any (λ (p : ProblemCounts). str_eq p.problem.id a) items ≡ true
        → any (λ (p : ProblemCounts). str_eq p.problem.id a) (filter (is_other b) items) ≡ true
    still [] e = e
    still (p ∷ items) e =
        ground (arith, h, eq_iff p.problem.id a, eq_iff p.problem.id b, still items)
