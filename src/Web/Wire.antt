-- ===== src/Web/Wire.antt =====
-- How a reply of the server reaches a page: what `fetch` makes of it, and the pages that only show a
-- list (platform/frontend/app/submissions/page.tsx and the like).
use judge.Base.{List, [], none, some}
use judge.Http.{Reply, json, validation, error_json}
use judge.Client.{Fetched, fine, refused, error_body, received, api_error, failed, request}

-- The codes of the replies with a body are 200, 201 and 202; the status text is not looked at, since
-- every error has a body.
unfoldable pub fetched : {B : Type 0} → Reply B → Fetched B
fetched (json code body) = fine code (some body)
fetched validation = refused 400 "" (error_body (some "validation"))
fetched (error_json code message) = refused code "" (error_body (some message))

-- `.then((r) => setItems(r.….)).catch(() => setItems([]))`
unfoldable pub list_answered : {A : Type 0} → Fetched (List A) → List A
list_answered r = elim (request r) [
  | received v ↦ elim v [ some items ↦ items | none ↦ [] ]
  | api_error status text ↦ []
  | failed ↦ []
]
