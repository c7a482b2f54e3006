-- ===== src/Judge0.antt =====
-- platform/backend/src/lib/judge0.ts. The service itself, axios and the base64 coding of `Buffer`
-- are parameters: a call of the service answers or throws.
pub mod Coding
use judge.Base.{
  ℕ, String, ◌≡◌, Bool, not, List, Option, none, some, map, filter, truthy, if◌then◌else◌,
}
use judge.Http.{Result, ok, throws}

-- `Buffer.from(s, 'utf8').toString('base64')` and back.
pub record Base64 : Type 0 where
  pub encode : String → String
  pub decode : String → String
  pub decode-encode : (s : String) → decode (encode s) ≡ s
  pub decode-empty : decode "" ≡ ""

pub record Judge0Submission : Type 0 where
  pub language_id : ℕ
  pub source_code : String
  pub stdin : Option String
  pub expected_output : Option String
  pub cpu_time_limit : Option ℕ
  pub memory_limit : Option ℕ
  pub callback_url : Option String

-- `{ id, description }`
pub record Status : Type 0 where
  pub id : ℕ
  pub description : String

-- A result; what Judge0 sends has the texts encoded, or null.
pub record RawResult : Type 0 where
  pub token : String
  pub status : Status
  pub stdout : Option String
  pub stderr : Option String
  pub compile_output : Option String
  pub message : Option String
  pub time : Option String
  pub memory : Option ℕ
  pub exit_code : Option ℕ

pub record Judge0Result : Type 0 where
  pub token : String
  pub status : Status
  pub stdout : String
  pub stderr : String
  pub compile_output : String
  pub message : String
  pub time : Option String
  pub memory : Option ℕ
  pub exit_code : Option ℕ

pub record Language : Type 0 where
  pub id : ℕ
  pub name : String
  pub is_archived : Bool

-- The service: the requests that the client makes, with the payload that it sends. An element of
-- a batch that Judge0 refuses has no token.
pub record Service : Type 0 where
  pub post_wait : Judge0Submission → Result RawResult
  pub post_batch : List Judge0Submission → Result (List (Option String))
  pub get_batch : List String → Result (List RawResult)
  pub get_languages : Result (List Language)

abbrev pub map_result : {A B : Type 0} → (A → B) → Result A → Result B
map_result f (ok a) = ok (f a)
map_result f (throws e) = throws e

module _ (base64 : Base64) where
  -- `s ? b64(s) : undefined`
  encode_some : Option String → Option String
  encode_some o = elim (truthy o) [ none ↦ none | some s ↦ some (base64.encode s) ]

  -- `fromB64`: the empty text for what is missing
  from_b64 : Option String → String
  from_b64 o = elim (truthy o) [ none ↦ "" | some s ↦ base64.decode s ]

  unfoldable pub decode_result : RawResult → Judge0Result
  unfolding from_b64
  decode_result d = record {
    token = d.token;
    status = d.status;
    stdout = from_b64 d.stdout;
    stderr = from_b64 d.stderr;
    compile_output = from_b64 d.compile_output;
    message = from_b64 d.message;
    time = d.time;
    memory = d.memory;
    exit_code = d.exit_code;
  }

  -- the payload of `submitBatch`
  unfoldable pub encode_item : Judge0Submission → Judge0Submission
  unfolding encode_some
  encode_item s = record s {
    source_code = base64.encode s.source_code;
    stdin = encode_some s.stdin;
    expected_output = encode_some s.expected_output;
  }

  -- `runSync` sends no callback URL.
  unfoldable pub run_sync : Service → Judge0Submission → Result Judge0Result
  unfolding encode_item decode_result
  run_sync service s =
      map_result decode_result (service.post_wait (record (encode_item s) { callback_url = none }))

  unfoldable pub submit_batch : Service → List Judge0Submission → Result (List (Option String))
  unfolding encode_item
  submit_batch service items = service.post_batch (map encode_item items)

  pub get_batch : Service → List String → Result (List Judge0Result)
  unfolding decode_result
  get_batch service tokens = map_result (map decode_result) (service.get_batch tokens)

unfoldable pub list_languages : Service → Result (List Language)
list_languages service = service.get_languages
