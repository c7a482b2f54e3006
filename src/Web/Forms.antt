-- ===== src/Web/Forms.antt =====
-- The forms that send one request: platform/frontend/app/login/page.tsx, app/register/page.tsx and
-- app/discussions/new/page.tsx.
use judge.Base.{String, Bool, ◌&&◌, Option, none, some, [], ◌∷◌, or_else}
use judge.Text.{min_length, max_length, concat}
use judge.Schema.{Discussion}
use judge.Accounts.{RegisterBody, LoginBody, Session}
use judge.Discussions.{CreateBody}
use judge.Client.{Fetched, received, api_error, failed, request}

-- The message below a form, and the page that it has sent the visitor to.
pub record Sent : Type 0 where
  pub error : Option String
  pub went_to : Option String

-- `setErr(null)`, before the request
unfoldable pub sending : Sent → Sent
sending s = record s { error = none }

-- `setErr(e instanceof ApiError ? e.message : fallback)`
abbrev shown : String → Sent → Sent
shown message s = record s { error = some message }

-- The constraints of the three inputs: the browser submits the form only where they hold. `is_email`
-- is the browser's test of `type="email"`. The pattern of the name is none of them: HTML compiles it
-- with the flag v, under which its `-` at the end of a class is an error, and ignores it then.
unfoldable pub browser_allows : (String → Bool) → RegisterBody → Bool
browser_allows is_email b =
    min_length 1 b.email
    && is_email b.email
    && min_length 3 b.username
    && max_length 24 b.username
    && min_length 8 b.password

unfoldable pub register_answered : Fetched Session → Sent → Sent
register_answered r s = elim (request r) [
  | received v ↦ record s { went_to = some "/problems" }
  | api_error status text ↦ shown text s
  | failed ↦ shown "registration failed" s
]

-- The two inputs are `required`.
unfoldable pub login_allowed : LoginBody → Bool
login_allowed b = min_length 1 b.email_or_username && min_length 1 b.password

unfoldable pub login_answered : Fetched Session → Sent → Sent
login_answered r s = elim (request r) [
  | received v ↦ record s { went_to = some "/problems" }
  | api_error status text ↦ shown text s
  | failed ↦ shown "login failed" s
]

-- What the form of a new thread sends: the problem stands in the page's query.
unfoldable pub thread_body : Option String → String → String → CreateBody
thread_body problem title body = record {
  problem_slug = or_else problem "";
  title = title;
  body_md = body;
}

unfoldable pub thread_allowed : String → String → Bool
thread_allowed title body = min_length 1 title && min_length 1 body

unfoldable pub thread_answered : Fetched Discussion → Sent → Sent
thread_answered r s = elim (request r) [
  | received v ↦ elim v [
    | some d ↦ record s { went_to = some (concat ("/discussions/" ∷ d.id ∷ [])) }
    | none ↦ shown "failed" s
  ]
  | api_error status text ↦ shown text s
  | failed ↦ shown "failed" s
]
