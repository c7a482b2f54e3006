-- ===== src/Web/AdminList.antt =====
-- The administrator's list of problems, platform/frontend/app/admin/page.tsx: whom it lets in, what
-- it loads, and how it deletes.
use judge.Base.{String, Bool, not, List, [], Option, none, some, filter, str_eq, if◌then◌else◌}
use judge.Schema.{user, admin}
use judge.Admin.{ProblemCounts}
use judge.Client.{Fetched, received, api_error, failed, request}
use judge.Web.Me.{Hook}

-- What the effect does: it waits for the hook, sends the visitor to the login, refuses, or loads.
pub data Gate : Type 0 where
  not_yet to_login refuse load : Gate

unfoldable pub gate : Hook → Gate
gate h = if h.loading then Gate.not_yet else elim h.me [
  | none ↦ Gate.to_login
  | some u ↦ elim u.role [ admin ↦ Gate.load | user ↦ Gate.refuse ]
]

pub record AdminHome : Type 0 where
  pub items : List ProblemCounts
  pub error : Option String

unfoldable pub new_home : AdminHome
new_home = record { items = []; error = none }

unfoldable pub problems_answered : Fetched (List ProblemCounts) → AdminHome → AdminHome
problems_answered r s = elim (request r) [
  | received v ↦ elim v [
    | some items ↦ record s { items = items }
    | none ↦ record s { error = some "load failed" }
  ]
  | api_error status text ↦ record s { error = some text }
  | failed ↦ record s { error = some "load failed" }
]

-- A deletion that has been confirmed and waits for its answer. The function that goes on after the
-- answer is the one of the rendering in which it was clicked, so it holds the rows of that time.
pub record Deletion : Type 0 where
  pub id : String
  pub items : List ProblemCounts

unfoldable pub del : String → AdminHome → Deletion
del id s = record { id = id; items = s.items }

-- the test of `items.filter((p) => p.id !== id)`
abbrev pub is_other : String → ProblemCounts → Bool
is_other id p = not (str_eq p.problem.id id)

-- An error is not caught, and changes nothing.
unfoldable pub del_answered : {B : Type 0} → Fetched B → Deletion → AdminHome → AdminHome
del_answered r d s = elim (request r) [
  | received v ↦ record s { items = filter (is_other d.id) d.items }
  | api_error status text ↦ s
  | failed ↦ s
]
