-- ===== src/Submissions/Privacy.antt =====
-- What the page of a submission tells a viewer who does not own it, GET /:id.
use mathlib.Core.List.{filter_map}
use mathlib.Core.Option
use judge.Base.{
  ◌≡◌, refl, String, Bool, false, List, [], ◌∷◌, map, Option, none, some, str_eq, if◌then◌else◌,
  Option-cases, inl, inr, Bool-cases,
}
use judge.Schema.{Db, Submission, SubmissionCase, TestCase}
use judge.Prisma.{Prisma, find_first}
use judge.Auth.{AuthUser}
use judge.Submissions.{case_view, case_views, submission_view, submission_item, is_admin, CaseView}

-- What a run printed.
pub record Output : Type 0 where
  pub stdout : Option String
  pub stderr : Option String
  pub compile_output : Option String

module _ ⦃prisma : Prisma⦄ where
  -- Does the case belong to a sample?
  pub of_sample : Db → SubmissionCase → Bool
  of_sample db c = elim (find_first (λ (t : TestCase). str_eq t.id c.test_case_id) db.test_cases) [
    | none ↦ false
    | some t ↦ t.is_sample
  ]

  -- Other output for the cases that are not samples.
  unfoldable pub printed : Db → (SubmissionCase → Output) → SubmissionCase → SubmissionCase
  unfolding of_sample
  printed db other c = record c {
    stdout = if of_sample db c then c.stdout else (other c).stdout;
    stderr = if of_sample db c then c.stderr else (other c).stderr;
    compile_output = if of_sample db c then c.compile_output else (other c).compile_output;
  }

  shown_case : Db → SubmissionCase → Option CaseView
  shown_case db c =
      Option.map (λ t. case_view false t c)
        (find_first (λ (t : TestCase). str_eq t.id c.test_case_id) db.test_cases)

  shown_case-printed :
      (db : Db) (other : SubmissionCase → Output) (c : SubmissionCase)
      → shown_case db (printed db other c) ≡ shown_case db c
  unfolding shown_case printed of_sample case_view
  shown_case-printed db other c =
      elim (Option-cases
        (find_first (λ (t : TestCase). str_eq t.id c.test_case_id) db.test_cases)) [
          | inl e ↦ rw e refl
          | inr (t, e) ↦ elim (Bool-cases t.is_sample) [
            | inl h ↦ rw (of_sample, e, h) refl
            | inr h ↦ rw (of_sample, e, h) refl
          ]
        ]

  case_views-printed :
      (db : Db) (other : SubmissionCase → Output) (cases : List SubmissionCase)
      → case_views false db (map (printed db other) cases) ≡ case_views false db cases
  unfolding case_views shown_case filter_map
  case_views-printed db other [] = refl
  case_views-printed db other (c ∷ cases) =
      rw (shown_case-printed db other c, case_views-printed db other cases) refl

  -- A viewer who neither owns the submission nor is an admin sees the same page whatever the source
  -- code is, and whatever was printed on the cases that are not samples.
  pub submission_view-private :
      (u : AuthUser) (db : Db) (s : Submission) (cases : List SubmissionCase)
      → str_eq s.user_id u.id ≡ false
      → is_admin u ≡ false
      → (code : String) (other : SubmissionCase → Output)
      → submission_view u db (record s { source_code = code }) (map (printed db other) cases)
        ≡ submission_view u db s cases
  unfolding submission_view submission_item
  submission_view-private u db s cases not_owner not_admin code other =
      rw (not_owner, not_admin, case_views-printed db other cases) refl
