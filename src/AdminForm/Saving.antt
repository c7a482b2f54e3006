-- ===== src/AdminForm/Saving.antt =====
-- A problem that is opened in the form and saved.
use judge.Base.{
  ℕ, suc, String, Bool, true, not, ◌&&◌, List, [], ◌∷◌, Option, none, some, map, map_from, or_else,
  str_eq, eq_iff, truthy, if◌then◌else◌, ◌≡◌, refl, ◌∙◌, All, arith, count, count-perm, count-map,
  Bool-cases, inl, inr,
}
use judge.Text.Parts.{IsWord}
use judge.Text.Words.{words-join}
use judge.Schema.{Db, Problem, StarterCode, TestCase}
use judge.Prisma.{Prisma}
use judge.Prisma.Rows.{count-remove, count-find_many, count-modify}
use judge.Problems.{in_order}
use judge.Admin.{
  FullProblem, full_problem, Fresh, replace_problem, delete_children, create_children,
  updated_problem,
}
use judge.Admin.Data.{ProblemData, StarterData, CaseData, case_row, starter_row}
use judge.Admin.Replace.{of_problem, count-insert_all}
use judge.AdminForm.{Form, payload, form_of, starter_data, case_data, slug_of}

-- What a request must say of a problem to leave it as it is.
abbrev pub data_of : FullProblem → ProblemData
data_of v = record {
  slug = v.problem.slug;
  title = v.problem.title;
  statement_md = v.problem.statement_md;
  constraints_md = truthy v.problem.constraints_md;
  difficulty = v.problem.difficulty;
  is_published = v.problem.is_published;
  tags = map slug_of v.tags;
  starter_codes = map starter_data v.starter_codes;
  test_cases = map case_data v.test_cases;
}

truthy-or_else : (o : Option String) → truthy (some (or_else o "")) ≡ truthy o
truthy-or_else none = refl
truthy-or_else (some c) = refl

-- A problem that is opened in the form and saved as it stands is sent as it was: every member has
-- the problem's value, where its tags are words, and constraints that are empty are left out.
pub payload-form_of :
    (v : FullProblem) → All (IsWord b',') (map slug_of v.tags) → payload (form_of v) ≡ data_of v
unfolding payload form_of
payload-form_of v h =
    cc (words-join (map slug_of v.tags) h, truthy-or_else v.problem.constraints_md)

updated-constraints : (o : Option String) → (elim (truthy o) [ none ↦ o | some c ↦ some c ]) ≡ o
updated-constraints none = refl
updated-constraints (some c) = ground (arith, eq_iff c "")

updated_problem-form_of :
    (v : FullProblem) → updated_problem (payload (form_of v)) v.problem ≡ v.problem
unfolding updated_problem payload form_of
updated_problem-form_of v =
    ground
      (arith, truthy-or_else v.problem.constraints_md, updated-constraints v.problem.constraints_md)

abbrev pub has_id : String → Problem → Bool
has_id id p = str_eq p.id id

-- The problem is the only row of its id.
abbrev pub IsOnly : Problem → List Problem → Type 0
IsOnly p = All (λ r. has_id p.id r ≡ true → r ≡ p)

abbrev pub starts : String → StarterCode → Bool
starts id s = str_eq s.problem_id id

count-case_rows :
    (fresh : ℕ → String) (id : String) (q : CaseData → Bool) (i : ℕ) (ds : List CaseData)
    → count (λ t. of_problem id t && q (case_data t)) (map_from (λ i. case_row (fresh i) id) i ds)
      ≡ count q ds
unfolding case_row
count-case_rows fresh id q i [] = refl
count-case_rows fresh id q i (d ∷ ds) =
    ground (arith, eq_iff id id, count-case_rows fresh id q (suc i) ds)

count-starter_rows :
    (fresh : ℕ → String) (id : String) (q : StarterData → Bool) (i : ℕ) (ds : List StarterData)
    → count (λ t. starts id t && q (starter_data t)) (map_from (λ i. starter_row (fresh i) id) i ds)
      ≡ count q ds
unfolding starter_row
count-starter_rows fresh id q i [] = refl
count-starter_rows fresh id q i (d ∷ ds) =
    ground (arith, eq_iff id id, count-starter_rows fresh id q (suc i) ds)

none_left :
    {R : Type 0} (w q : R → Bool) (rows : List R) → count (λ r. not (w r) && (w r && q r)) rows ≡ 0
none_left w q [] = refl
none_left w q (r ∷ rows) = ground (arith, none_left w q rows)

count_unchanged :
    (q : Problem → Bool) (p : Problem) (f : Problem → Problem)
    → f p ≡ p
    → (rows : List Problem) → IsOnly p rows
    → count (λ r. q (if has_id p.id r then f r else r)) rows ≡ count q rows
count_unchanged q p f e [] h = refl
count_unchanged q p f e (r ∷ rows) (h, hs) = elim (Bool-cases (has_id p.id r)) [
  | inl t ↦ ground (arith, h t, e, t, count_unchanged q p f e rows hs)
  | inr t ↦ ground (arith, t, count_unchanged q p f e rows hs)
]

constraints_kept :
    (f : Form)
    → f.constraints_md ≡ ""
    → (r : Problem) → (updated_problem (payload f) r).constraints_md ≡ r.constraints_md
unfolding updated_problem payload
constraints_kept f e r = ground (arith, e, eq_iff f.constraints_md "")

updated-id : (d : ProblemData) (r : Problem) → (updated_problem d r).id ≡ r.id
unfolding updated_problem
updated-id d r = refl

module _ ⦃prisma : Prisma⦄ where
  abbrev pub saved : Fresh → Problem → List String → Db → Db
  saved fresh p tag_ids db =
      replace_problem fresh p.id (payload (form_of (full_problem p db))) tag_ids db

  module _ (fresh : Fresh) (p : Problem) (tag_ids : List String) (db : Db) where
    same_problems :
        (q : Problem → Bool)
        → IsOnly p db.problems
        → count q (saved fresh p tag_ids db).problems ≡ count q db.problems
    unfolding replace_problem create_children delete_children
    same_problems q h =
        let f = updated_problem (payload (form_of (full_problem p db))) in
        count-modify q (has_id p.id) f db.problems
        ∙ count_unchanged q p f (unfold full_problem in updated_problem-form_of (full_problem p db))
            db.problems h

    same_cases :
        (q : CaseData → Bool)
        → count (λ t. of_problem p.id t && q (case_data t)) (saved fresh p tag_ids db).test_cases
          ≡ count (λ t. of_problem p.id t && q (case_data t)) db.test_cases
    unfolding replace_problem create_children delete_children full_problem payload form_of
    same_cases q =
        let w : TestCase → Bool = of_problem p.id in
        let rows : List TestCase = prisma.order_by in_order (prisma.find_many w db.test_cases) in
        count-insert_all (λ t. w t && q (case_data t))
          (map_from (λ i. case_row (fresh.test_case i) p.id) 0 (map case_data rows))
          (prisma.remove w db.test_cases)
        ∙ omega (
          arith,
          count-case_rows fresh.test_case p.id q 0 (map case_data rows),
          count-map case_data q rows,
          count-perm (λ t. q (case_data t))
              (prisma.order_by_perm in_order (prisma.find_many w db.test_cases)),
          count-find_many w (λ t. q (case_data t)) db.test_cases,
          count-remove (λ t. w t && q (case_data t)) w db.test_cases,
          none_left w (λ t. q (case_data t)) db.test_cases,
        )

    same_starters :
        (q : StarterData → Bool)
        → count (λ s. starts p.id s && q (starter_data s)) (saved fresh p tag_ids db).starter_codes
          ≡ count (λ s. starts p.id s && q (starter_data s)) db.starter_codes
    unfolding replace_problem create_children delete_children full_problem payload form_of
    same_starters q =
        let w : StarterCode → Bool = starts p.id in
        let rows : List StarterCode = prisma.find_many w db.starter_codes in
        count-insert_all (λ s. w s && q (starter_data s))
          (map_from (λ i. starter_row (fresh.starter i) p.id) 0 (map starter_data rows))
          (prisma.remove w db.starter_codes)
        ∙ omega (
          arith,
          count-starter_rows fresh.starter p.id q 0 (map starter_data rows),
          count-map starter_data q rows,
          count-find_many w (λ s. q (starter_data s)) db.starter_codes,
          count-remove (λ s. w s && q (starter_data s)) w db.starter_codes,
          none_left w (λ s. q (starter_data s)) db.starter_codes,
        )

    -- An update with what the form of a problem sends, opened and left as it is, changes no problem
    -- row, where the problem is the only one of its id, and the problem has test cases and starter
    -- codes of the same content as before.
    pub save_untouched :
        (q : Problem → Bool) (qc : CaseData → Bool) (qs : StarterData → Bool)
        → IsOnly p db.problems
        → (count q (saved fresh p tag_ids db).problems ≡ count q db.problems)
          × (count
                (λ t. of_problem p.id t && qc (case_data t))
                (saved fresh p tag_ids db).test_cases
              ≡ count (λ t. of_problem p.id t && qc (case_data t)) db.test_cases)
          × (count
                (λ s. starts p.id s && qs (starter_data s))
                (saved fresh p tag_ids db).starter_codes
              ≡ count (λ s. starts p.id s && qs (starter_data s)) db.starter_codes)
    save_untouched q qc qs h = (same_problems q h, same_cases qc, same_starters qs)

    -- A form in which the constraints are empty changes the constraints of no problem, whatever else
    -- it holds: constraints that were stored stay.
    pub constraints_stay :
        (f : Form) (q : String → Option String → Bool)
        → f.constraints_md ≡ ""
        → count
            (λ r. q r.id r.constraints_md)
            (replace_problem fresh p.id (payload f) tag_ids db).problems
          ≡ count (λ r. q r.id r.constraints_md) db.problems
    unfolding replace_problem create_children delete_children
    constraints_stay f q e =
        count-modify (λ r. q r.id r.constraints_md) (has_id p.id) (updated_problem (payload f))
          db.problems
        ∙ unchanged db.problems
      where
        unchanged :
            (rows : List Problem)
            → count
                (λ r.
                  q
                    (if has_id p.id r then updated_problem (payload f) r else r).id
                    (if has_id p.id r then updated_problem (payload f) r else r).constraints_md)
                rows
              ≡ count (λ r. q r.id r.constraints_md) rows
        unchanged [] = refl
        unchanged (r ∷ rows) = elim (Bool-cases (has_id p.id r)) [
          | inl t ↦
              rw t
                (ground (arith, constraints_kept f e r, updated-id (payload f) r, unchanged rows))
          | inr t ↦ rw t (ground (arith, unchanged rows))
        ]
