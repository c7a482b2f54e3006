-- ===== src/Schema.antt =====
-- The data model of platform/backend/prisma/schema.prisma: one record per model, one list per
-- table. Identifiers are texts; times are milliseconds; `Int` columns that the program only counts
-- or measures with are natural numbers.
mod Ints
pub use Ints.*
use judge.Base.{ℕ, String, Bool, Option, List}

pub data Role : Type 0 where
  user admin : Role

pub data Difficulty : Type 0 where
  easy medium hard : Difficulty

pub data SubmissionStatus : Type 0 where
  pending running ac wa tle mle re ce ie : SubmissionStatus

pub record User : Type 0 where
  pub id : String
  pub email : String
  pub username : String
  pub password_hash : String
  pub avatar_url : Option String
  pub bio : Option String
  pub role : Role
  pub rating : ℕ
  pub created_at : ℕ

pub record Problem : Type 0 where
  pub id : String
  pub slug : String
  pub title : String
  pub statement_md : String
  pub constraints_md : Option String
  pub difficulty : Difficulty
  pub is_published : Bool
  pub created_at : ℕ

pub record StarterCode : Type 0 where
  pub id : String
  pub problem_id : String
  pub language_id : ℤ
  pub code : String

pub record TestCase : Type 0 where
  pub id : String
  pub problem_id : String
  pub input : String
  pub expected_output : String
  pub is_sample : Bool
  pub order : ℤ

pub record Tag : Type 0 where
  pub id : String
  pub slug : String
  pub name : String

pub record ProblemTag : Type 0 where
  pub problem_id : String
  pub tag_id : String

pub record Submission : Type 0 where
  pub id : String
  pub user_id : String
  pub problem_id : String
  pub contest_id : Option String
  pub language_id : ℕ
  pub source_code : String
  pub status : SubmissionStatus
  pub runtime_ms : Option ℕ
  pub memory_kb : Option ℕ
  pub passed_count : ℕ
  pub total_count : ℕ
  pub judge0_tokens : List String
  pub error_message : Option String
  pub created_at : ℕ
  pub finished_at : Option ℕ

pub record SubmissionCase : Type 0 where
  pub id : String
  pub submission_id : String
  pub test_case_id : String
  pub judge0_token : String
  pub status : SubmissionStatus
  pub runtime_ms : Option ℕ
  pub memory_kb : Option ℕ
  pub stdout : Option String
  pub stderr : Option String
  pub compile_output : Option String

pub record Discussion : Type 0 where
  pub id : String
  pub problem_id : String
  pub user_id : String
  pub title : String
  pub body_md : String
  pub upvotes : ℕ
  pub created_at : ℕ

pub record DiscussionReply : Type 0 where
  pub id : String
  pub discussion_id : String
  pub user_id : String
  pub body_md : String
  pub created_at : ℕ

pub record Contest : Type 0 where
  pub id : String
  pub slug : String
  pub title : String
  pub description_md : String
  pub starts_at : ℕ
  pub ends_at : ℕ

pub record ContestProblem : Type 0 where
  pub contest_id : String
  pub problem_id : String
  pub points : ℕ
  pub order : ℤ

pub record ContestParticipant : Type 0 where
  pub contest_id : String
  pub user_id : String
  pub score : ℕ
  pub last_submission_at : Option ℕ

pub record DailyProblem : Type 0 where
  pub date : ℕ
  pub problem_id : String

-- The tables. No order of the rows is meant.
pub record Db : Type 0 where
  pub users : List User
  pub problems : List Problem
  pub starter_codes : List StarterCode
  pub test_cases : List TestCase
  pub tags : List Tag
  pub problem_tags : List ProblemTag
  pub submissions : List Submission
  pub submission_cases : List SubmissionCase
  pub discussions : List Discussion
  pub discussion_replies : List DiscussionReply
  pub contests : List Contest
  pub contest_problems : List ContestProblem
  pub contest_participants : List ContestParticipant
  pub daily_problems : List DailyProblem
