-- ===== src/Tests/Services.antt =====
-- Plain functions for what the program leaves to its libraries and to other services.
use judge.Base.{
  ◌≡◌, refl, String, true, false, [], ◌∷◌, none, some, str_eq, eq_iff, if◌then◌else◌, arith,
}
use judge.Schema.{
  Db, User, Problem, StarterCode, TestCase, Tag, ProblemTag, Submission, SubmissionCase, Discussion,
  Contest, ContestProblem, ContestParticipant, easy, medium, running, pending, ac, ℤ, pos,
}
use judge.Schema
use judge.Text.{concat}
use judge.Http.{ok, throws, other_error}
use judge.Auth.{AuthUser, Jwt, IsVerified}
use judge.Judge0.{Base64, Service, RawResult, Language}
use judge.Accounts.{Bcrypt}
use judge.Callback.{Rounding}
use judge.Submit.Signing.{Crypto}
use judge.Submit.{Env}

abbrev pub plain64 : Base64
plain64 = record {
  encode = λ s. s;
  decode = λ s. s;
  decode-encode = λ s. refl;
  decode-empty = refl;
}

-- one digest for all messages
abbrev pub digest : String
digest = "0123456789abcdef0123456789abcdef0123456789abcdef0123456789abcdef"

abbrev pub crypto : Crypto
crypto = record { hmac = λ key message. digest; len-hmac = λ key message. refl }

pub fits : (salt password : String) → str_eq password password ≡ true
fits salt password = ground (arith, eq_iff password password)

abbrev pub bcrypt : Bcrypt
bcrypt = record {
  hash = λ salt password. password;
  compare = λ password hash. str_eq password hash;
  compare-hash = fits;
}

abbrev pub alice : AuthUser
alice = record { id = "u1"; username = "alice"; email = "alice@x.org"; role = Schema.user }

abbrev pub root : AuthUser
root = record { id = "u2"; username = "root"; email = "root@x.org"; role = Schema.admin }

-- tokens of one payload, that of alice
abbrev pub jwt : Jwt
jwt = record {
  sign = λ u secret lifetime at. concat (u.id ∷ "." ∷ secret ∷ []);
  verify = λ token secret now.
      if str_eq token (concat ("u1" ∷ "." ∷ secret ∷ [])) then some alice else none;
}

pub jwt-IsVerified : IsVerified jwt alice
jwt-IsVerified secret lifetime at now h =
    ground (arith, eq_iff (concat ("u1" ∷ "." ∷ secret ∷ [])) (concat ("u1" ∷ "." ∷ secret ∷ [])))

abbrev pub accepted_raw : RawResult
accepted_raw = record {
  token = "tok";
  status = record { id = 3; description = "Accepted" };
  stdout = some "4";
  stderr = none;
  compile_output = none;
  message = none;
  time = some "0.01";
  memory = some 100;
  exit_code = some 0;
}

abbrev pub python : Language
python = record { id = 71; name = "Python"; is_archived = false }

abbrev pub cobol : Language
cobol = record { id = 77; name = "COBOL"; is_archived = true }

abbrev pub service : Service
service = record {
  post_wait = λ s. ok accepted_raw;
  post_batch = λ ss. ok (some "tok1" ∷ some "tok2" ∷ []);
  get_batch = λ tokens. ok [];
  get_languages = ok (python ∷ cobol ∷ []);
}

abbrev pub down : Service
down = record {
  post_wait = λ s. throws other_error;
  post_batch = λ ss. throws other_error;
  get_batch = λ tokens. throws other_error;
  get_languages = throws other_error;
}

abbrev pub to_ms : Rounding
to_ms time = 10

abbrev pub env : Env
env = record { callback_secret = some "secret"; public_url = none }
