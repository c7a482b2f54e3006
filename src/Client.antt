-- ===== src/Client.antt =====
-- platform/frontend/lib/api.ts: what becomes of the answer that `fetch` gives.
use judge.Base.{ℕ, String, Option, none, some, or_else, ◌==◌, if◌then◌else◌}

-- The body of an answer that is not `ok`: no JSON, `null`, or an object with or without `error`.
pub data ErrorBody : Type 0 where
  not_json null_body : ErrorBody
  error_body : Option String → ErrorBody

-- What `fetch` gives: it rejects, the answer is `ok` with its JSON, if it is any, or it is not.
pub data Fetched (A : Type 0) : Type 0 where
  unreachable : Fetched A
  fine : ℕ → Option A → Fetched A
  refused : ℕ → String → ErrorBody → Fetched A

-- What `request` returns, where 204 gives `undefined`, or throws: an `ApiError` or another error.
pub data Answer (A : Type 0) : Type 0 where
  received : Option A → Answer A
  api_error : ℕ → String → Answer A
  failed : Answer A

-- `err.error ?? 'request failed'`; reading a member of `null` throws.
unfoldable pub refusal : {A : Type 0} → ℕ → String → ErrorBody → Answer A
refusal status status_text not_json = api_error status status_text
refusal status status_text null_body = failed
refusal status status_text (error_body e) = api_error status (or_else e "request failed")

unfoldable pub request : {A : Type 0} → Fetched A → Answer A
unfolding refusal
request unreachable = failed
request (refused status status_text body) = refusal status status_text body
request (fine status body) =
    if status == 204
    then received none
    else elim body [ none ↦ failed | some a ↦ received (some a) ]
