-- ===== src/Web/ContestPage.antt =====
-- The page of a contest, platform/frontend/app/contests/[slug]/page.tsx.
use judge.Base.{String, Option, none, some}
use judge.Contests.{ContestView}
use judge.Client.{Fetched, received, api_error, failed, request}

pub record ContestPage : Type 0 where
  pub contest : Option ContestView
  pub error : Option String

unfoldable pub contest_loaded : Fetched ContestView → ContestPage → ContestPage
contest_loaded r s = elim (request r) [
  | received v ↦ elim v [
    | some c ↦ record s { contest = some c }
    | none ↦ record s { error = some "Failed to load" }
  ]
  | api_error status text ↦ record s { error = some "Failed to load" }
  | failed ↦ record s { error = some "Failed to load" }
]

-- The text of `alert` after a click on Register; the page itself stays as it is.
unfoldable pub register_alert : {B : Type 0} → Fetched B → String
register_alert r = elim (request r) [
  | received v ↦ "Registered!"
  | api_error status text ↦ text
  | failed ↦ "failed"
]
