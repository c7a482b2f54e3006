-- ===== src/Web/Me.antt =====
-- platform/frontend/lib/me.ts, and the links that platform/frontend/components/Navbar.tsx shows by it.
use judge.Base.{String, Bool, true, false, List, [], ◌∷◌, Option, none, some, ◌==◌, if◌then◌else◌}
use judge.Schema.{user, admin}
use judge.Auth.{AuthUser}
use judge.Client.{Fetched, received, api_error, failed, request}

-- `alive` ends when the component goes.
pub record Hook : Type 0 where
  pub me : Option AuthUser
  pub loading : Bool
  pub alive : Bool

unfoldable pub new_hook : Hook
new_hook = record { me = none; loading = true; alive = true }

-- The answer to `/api/auth/me`; an answer without a user throws, which changes nothing.
unfoldable pub me_of : Fetched AuthUser → Option AuthUser → Option AuthUser
me_of r old = elim (request r) [
  | received v ↦ elim v [ some u ↦ some u | none ↦ old ]
  | api_error status text ↦ if status == 401 then none else old
  | failed ↦ old
]

unfoldable pub me_answered : Fetched AuthUser → Hook → Hook
unfolding me_of
me_answered r h = if h.alive then record h { me = me_of r h.me; loading = false } else h

pub data Link : Type 0 where
  admin_pages sign_out sign_in sign_up : Link
  profile : String → Link

-- What stands at the right of the bar.
unfoldable pub links : Hook → List Link
links h = if h.loading then [] else elim h.me [
  | none ↦ sign_in ∷ sign_up ∷ []
  | some u ↦ elim u.role [
    | admin ↦ admin_pages ∷ profile u.username ∷ sign_out ∷ []
    | user ↦ profile u.username ∷ sign_out ∷ []
  ]
]
