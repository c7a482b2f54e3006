-- ===== src/Tests/World.antt =====
-- The data of the tests.
use judge.Base.{ℕ, zero, suc, String, true, false, [], ◌∷◌, none, some, str_eq, if◌then◌else◌}
use judge.Schema.{
  Db, User, Problem, StarterCode, TestCase, Tag, ProblemTag, Submission, SubmissionCase, Discussion,
  Contest, ContestProblem, ContestParticipant, easy, medium, running, pending, ac, ℤ, pos,
}
use judge.Schema
use judge.Text.{concat}
use judge.Callback.{Body}
use judge.Submit.{SubmitBody}
use judge.Admin.{Fresh}
use judge.Admin.Data.{ProblemData}
use judge.Problems.{Texts}
pub use judge.Tests.Services.{
  plain64, digest, crypto, fits, bcrypt, alice, root, jwt, jwt-IsVerified, accepted_raw, python,
  cobol, service, down, to_ms, env,
}

abbrev pub alice_row : User
alice_row = record {
  id = "u1";
  email = "alice@x.org";
  username = "alice";
  password_hash = "password";
  avatar_url = none;
  bio = none;
  role = Schema.user;
  rating = 1500;
  created_at = 1;
}

abbrev pub root_row : User
root_row = record alice_row {
  id = "u2";
  email = "root@x.org";
  username = "root";
  role = Schema.admin;
}

abbrev pub sum_problem : Problem
sum_problem = record {
  id = "p1";
  slug = "sum";
  title = "Sum";
  statement_md = "Add.";
  constraints_md = some "small";
  difficulty = easy;
  is_published = true;
  created_at = 5;
}

abbrev pub draft : Problem
draft = record sum_problem { id = "p2"; slug = "draft"; difficulty = medium; is_published = false }

abbrev pub sample_case : TestCase
sample_case = record {
  id = "t1";
  problem_id = "p1";
  input = "2 2";
  expected_output = "4";
  is_sample = true;
  order = pos 0;
}

abbrev pub hidden_case : TestCase
hidden_case = record sample_case { id = "t2"; is_sample = false; order = pos 1 }

abbrev pub contest : Contest
contest = record {
  id = "c1";
  slug = "cup";
  title = "Cup";
  description_md = "";
  starts_at = 100;
  ends_at = 900;
}

abbrev pub waiting : Submission
waiting = record {
  id = "s1";
  user_id = "u1";
  problem_id = "p1";
  contest_id = some "c1";
  language_id = 71;
  source_code = "print(4)";
  status = running;
  runtime_ms = none;
  memory_kb = none;
  passed_count = 0;
  total_count = 2;
  judge0_tokens = "a" ∷ "b" ∷ [];
  created_at = 200;
  error_message = none;
  finished_at = none;
}

-- an accepted submission from before the contest
abbrev pub solved : Submission
solved = record waiting {
  id = "s0";
  contest_id = none;
  status = ac;
  passed_count = 2;
  created_at = 50;
}

abbrev pub case1 : SubmissionCase
case1 = record {
  id = "k1";
  submission_id = "s1";
  test_case_id = "t1";
  judge0_token = "a";
  status = pending;
  runtime_ms = none;
  memory_kb = none;
  stdout = none;
  stderr = none;
  compile_output = none;
}

abbrev pub case2 : SubmissionCase
case2 = record case1 { id = "k2"; test_case_id = "t2"; judge0_token = "b" }

abbrev pub question : Discussion
question = record {
  id = "d1";
  problem_id = "p1";
  user_id = "u1";
  title = "How?";
  body_md = "How?";
  upvotes = 4;
  created_at = 300;
}

abbrev pub db : Db
db = record {
  users = alice_row ∷ root_row ∷ [];
  problems = sum_problem ∷ draft ∷ [];
  starter_codes = [];
  test_cases = sample_case ∷ hidden_case ∷ [];
  tags = record { id = "g1"; slug = "math"; name = "Math" } ∷ [];
  problem_tags = record { problem_id = "p1"; tag_id = "g1" } ∷ [];
  submissions = waiting ∷ solved ∷ [];
  submission_cases = case1 ∷ case2 ∷ [];
  discussions = question ∷ [];
  discussion_replies = [];
  contests = contest ∷ [];
  contest_problems =
      record { contest_id = "c1"; problem_id = "p1"; points = 100; order = pos 0 } ∷ [];
  contest_participants =
      record { contest_id = "c1"; user_id = "u2"; score = 70; last_submission_at = some 400 } ∷ [];
  daily_problems = [];
}

-- the results that Judge0 sends: the first test case is accepted, the second has a wrong answer
abbrev pub results : String → Body
results t = record {
  status_id = some (if str_eq t "t1" then 3 else 4);
  time = some "0.010";
  memory = some 256;
  stdout = some "4";
  stderr = none;
  compile_output = none;
}

abbrev pub submission : SubmitBody
submission = record { language_id = 71; source_code = "print(4)"; contest_id = some "c1" }

abbrev numbered : String → ℕ → String
numbered prefix zero = concat (prefix ∷ "0" ∷ [])
numbered prefix (suc zero) = concat (prefix ∷ "1" ∷ [])
numbered prefix (suc (suc n)) = concat (prefix ∷ "+" ∷ [])

abbrev pub case_ids : ℕ → String
case_ids = numbered "case"

abbrev pub fresh : Fresh
fresh = record { tag = numbered "tag"; starter = numbered "starter"; test_case = numbered "test" }

abbrev pub new_data : ProblemData
new_data = record {
  slug = "sum";
  title = "Sum";
  statement_md = "Add.";
  constraints_md = none;
  difficulty = easy;
  is_published = true;
  tags = "math" ∷ "easy" ∷ [];
  starter_codes = [];
  test_cases =
      record { input = "1 1"; expected_output = "2"; is_sample = true; order = pos 0 } ∷ [];
}

abbrev pub texts : Texts
texts = record { to_upper_case = λ s. s; contains_insensitive = λ title s. str_eq title s }
