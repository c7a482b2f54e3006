-- ===== src/Problems.antt =====
-- platform/backend/src/routes/problems.ts, the reading half: the list, one problem, and a run.
-- Grading a submission is in the module Submit.
pub mod Views
use judge.Base.{
  ℕ, String, Bool, true, false, ◌&&◌, List, [], ◌∷◌, Option, none, some, map, filter, any, length,
  head?, truthy, or_else, str_eq, leb, if◌then◌else◌,
}
use mathlib.Core.List.{filter_map}
use judge.Text.{min_length, max_length}
use judge.Schema.{
  Db, Difficulty, easy, medium, hard, Problem, Tag, ProblemTag, TestCase, Submission, StarterCode,
  ℤ, leb_ℤ,
}
use judge.Prisma.{Prisma, find_first}
use judge.Http.{
  Reply, json, Thrown, http_error, other_error, Action, pure, lift, throw, gets, or_throw,
  zod_parse, respond, ◌>>=◌, ◌>>◌,
}
use judge.Auth.{AuthUser, auth_required}
use judge.Judge0.{Base64, Service, Status, Judge0Result, run_sync}
use judge.Grader.{is_ac}

-- `toUpperCase`, and Prisma's `contains` with `mode: 'insensitive'`
pub record Texts : Type 0 where
  pub to_upper_case : String → String
  pub contains_insensitive : String → String → Bool

-- The query string.
pub record ListQuery : Type 0 where
  pub difficulty : Option String
  pub tag : Option String
  pub search : Option String

pub record ProblemItem : Type 0 where
  pub id : String
  pub slug : String
  pub title : String
  pub difficulty : Difficulty
  pub tags : List Tag
  pub submission_count : ℕ
  pub solved : Bool

-- A value of the enumeration; Prisma refuses any other text.
abbrev pub difficulty_of : String → Option Difficulty
difficulty_of s =
    if str_eq s "EASY"
    then some easy
    else if str_eq s "MEDIUM"
    then some medium
    else if str_eq s "HARD"
    then some hard
    else none

abbrev pub same_difficulty : Difficulty → Difficulty → Bool
same_difficulty easy easy = true
same_difficulty medium medium = true
same_difficulty hard hard = true
same_difficulty _ _ = false

-- `where.difficulty`: absent, or the value that is asked for
unfoldable pub difficulty_filter : Texts → Option String → Action (Option Difficulty)
difficulty_filter texts q = elim (truthy q) [
  | none ↦ pure none
  | some d ↦ elim (difficulty_of (texts.to_upper_case d)) [
    | none ↦ throw other_error
    | some v ↦ pure (some v)
  ]
]

wants_difficulty : Option Difficulty → Difficulty → Bool
wants_difficulty none d = true
wants_difficulty (some v) d = same_difficulty v d

wants_title : Texts → Option String → String → Bool
wants_title texts q title = elim (truthy q) [
  | none ↦ true
  | some s ↦ texts.contains_insensitive title s
]

-- `{ some: { tag: { slug } } }`
has_tag : Db → String → String → Bool
has_tag db slug problem_id =
    any
      (λ (pt : ProblemTag).
        str_eq pt.problem_id problem_id
        && any (λ (t : Tag). str_eq t.id pt.tag_id && str_eq t.slug slug) db.tags)
      db.problem_tags

wants_tag : Db → Option String → String → Bool
wants_tag db q problem_id = elim (truthy q) [ none ↦ true | some slug ↦ has_tag db slug problem_id ]

unfoldable pub list_where : Texts → Db → ListQuery → Option Difficulty → Problem → Bool
unfolding wants_difficulty wants_title has_tag wants_tag
list_where texts db q d p =
    p.is_published
    && wants_difficulty d p.difficulty
    && wants_title texts q.search p.title
    && wants_tag db q.tag p.id

abbrev pub created_before : Problem → Problem → Bool
created_before p q = leb p.created_at q.created_at

-- The columns of a test case that `select` names.
pub record SampleView : Type 0 where
  pub id : String
  pub input : String
  pub expected_output : String

abbrev pub sample_view : TestCase → SampleView
sample_view t = record { id = t.id; input = t.input; expected_output = t.expected_output }

abbrev pub in_order : TestCase → TestCase → Bool
in_order a b = leb_ℤ a.order b.order

pub record StarterView : Type 0 where
  pub language_id : ℤ
  pub code : String

pub record ProblemView : Type 0 where
  pub id : String
  pub slug : String
  pub title : String
  pub difficulty : Difficulty
  pub statement_md : String
  pub constraints_md : Option String
  pub starter_codes : List StarterView
  pub tags : List Tag
  pub sample_test_cases : List SampleView

pub record RunBody : Type 0 where
  pub language_id : ℕ
  pub source_code : String
  pub stdin : Option String

-- `runSchema`; a text is at most 64,000 units long.
run_checks : RunBody → Bool
run_checks b =
    leb 1 b.language_id
    && min_length 1 b.source_code
    && max_length 64000 b.source_code
    && elim b.stdin [ none ↦ true | some s ↦ max_length 64000 s ]

pub record RunView : Type 0 where
  pub stdout : String
  pub stderr : String
  pub compile_output : String
  pub time : Option String
  pub memory : Option ℕ
  pub status : Status

abbrev pub not_found : Thrown
not_found = http_error 404 "problem not found"

module _ ⦃prisma : Prisma⦄ where
  unfoldable pub find_problem : Db → String → Option Problem
  find_problem db slug = find_first (λ (p : Problem). str_eq p.slug slug) db.problems

  unfoldable pub tags_of : Db → String → List Tag
  tags_of db problem_id =
      filter_map (λ (pt : ProblemTag). find_first (λ (t : Tag). str_eq t.id pt.tag_id) db.tags)
        (prisma.find_many (λ pt. str_eq pt.problem_id problem_id) db.problem_tags)

  -- the accepted submissions of the user, one for each problem
  unfoldable pub accepted_of : Db → Option AuthUser → List Submission
  accepted_of db none = []
  accepted_of db (some u) =
      prisma.distinct (λ (s : Submission). s.problem_id)
        (prisma.find_many (λ (s : Submission). str_eq s.user_id u.id && is_ac s.status)
          db.submissions)

  unfoldable pub problem_item : Db → List Submission → Problem → ProblemItem
  unfolding tags_of
  problem_item db accepted p = record {
    id = p.id;
    slug = p.slug;
    title = p.title;
    difficulty = p.difficulty;
    tags = tags_of db p.id;
    submission_count =
        length (prisma.find_many (λ (s : Submission). str_eq s.problem_id p.id) db.submissions);
    solved = any (λ (s : Submission). str_eq s.problem_id p.id) accepted;
  }

  unfoldable pub problem_items :
      Texts → Option AuthUser → ListQuery → Option Difficulty → Db → List ProblemItem
  unfolding problem_item accepted_of list_where
  problem_items texts user q d db =
      map (problem_item db (accepted_of db user))
        (prisma.order_by created_before (prisma.find_many (list_where texts db q d) db.problems))

  -- GET /
  unfoldable pub list_problems :
      Texts → Option AuthUser → ListQuery → Db → Reply (List ProblemItem) × Db
  unfolding problem_items difficulty_filter
  list_problems texts user q = respond do
    d ← difficulty_filter texts q.difficulty
    items ← gets (problem_items texts user q d)
    pure (json 200 items)

  unfoldable pub samples_of : Db → Problem → List TestCase
  samples_of db p =
      prisma.order_by in_order
        (prisma.find_many (λ (t : TestCase). str_eq t.problem_id p.id && t.is_sample) db.test_cases)

  unfoldable pub problem_view : Problem → Db → ProblemView
  unfolding samples_of tags_of
  problem_view p db = record {
    id = p.id;
    slug = p.slug;
    title = p.title;
    difficulty = p.difficulty;
    statement_md = p.statement_md;
    constraints_md = p.constraints_md;
    starter_codes =
        map (λ (s : StarterCode). record { language_id = s.language_id; code = s.code })
          (prisma.find_many (λ (s : StarterCode). str_eq s.problem_id p.id) db.starter_codes);
    tags = tags_of db p.id;
    sample_test_cases = map sample_view (samples_of db p);
  }

  -- GET /:slug
  unfoldable pub get_problem : String → Db → Reply ProblemView × Db
  unfolding find_problem problem_view
  get_problem slug = respond do
    p ← or_throw (← gets (λ db. find_problem db slug)) not_found
    view ← gets (problem_view p)
    pure (json 200 view)

  -- `stdin ?? problem.testCases[0]?.input ?? ''`
  unfoldable pub input_to_use : Option String → List TestCase → String
  input_to_use (some s) samples = s
  input_to_use none [] = ""
  input_to_use none (t ∷ samples) = t.input

  run_view : Judge0Result → RunView
  run_view r = record {
    stdout = r.stdout;
    stderr = r.stderr;
    compile_output = r.compile_output;
    time = r.time;
    memory = r.memory;
    status = r.status;
  }

  -- POST /:slug/run
  unfoldable pub run_problem :
      Base64 → Service → Option AuthUser → String → Option RunBody → Db → Reply RunView × Db
  unfolding find_problem samples_of input_to_use run_sync run_view run_checks auth_required
  run_problem base64 service user slug body = auth_required user λ u. respond do
    b ← zod_parse run_checks body
    p ← or_throw (← gets (λ db. find_problem db slug)) not_found
    samples ← gets (λ db. samples_of db p)
    r ← lift (
        run_sync base64 service (record {
          language_id = b.language_id;
          source_code = b.source_code;
          stdin = some (input_to_use b.stdin samples);
          expected_output = none;
          cpu_time_limit = none;
          memory_limit = none;
          callback_url = none;
        }))
    pure (json 200 (run_view r))
