-- ===== src/Auth.antt =====
-- platform/backend/src/middleware/auth.ts. The signing of tokens is jsonwebtoken's.
use judge.Base.{
  ℕ, ◌+◌, ◌/◌, ◌<◌, String, ◌≡◌, Option, none, some, true, Bool, truthy, str_eq, if◌then◌else◌,
}
use text.Mathlib.Text.{starts_with}
use Prim.Native.String.{slice, len}
use judge.Schema.{Db, User, Role, user, admin}
use judge.Prisma.{Prisma, find_first}
use judge.Http.{Reply, error_json}

pub record AuthUser : Type 0 where
  pub id : String
  pub username : String
  pub email : String
  pub role : Role

-- jsonwebtoken: `sign` at a time with a lifetime in seconds, `verify` at a later time; `none` where
-- `verify` throws. The times are the clock's, in milliseconds.
pub record Jwt : Type 0 where
  pub sign : AuthUser → String → ℕ → ℕ → String
  pub verify : String → String → ℕ → Option AuthUser

-- What jsonwebtoken promises of a payload: its token verifies with the secret that it was signed
-- with, until its lifetime is over. It counts the whole seconds of the clock.
abbrev pub IsVerified : Jwt → AuthUser → Type 0
IsVerified jwt u =
    (secret : String) (lifetime at now : ℕ)
    → now / 1000 < at / 1000 + lifetime
    → jwt.verify (jwt.sign u secret lifetime at) secret now ≡ some u

-- `process.env.JWT_SECRET ?? 'dev-secret-change-me'`
unfoldable pub jwt_secret : Option String → String
jwt_secret none = "dev-secret-change-me"
jwt_secret (some s) = s

-- The parts of a request that `readToken` looks at: the cookie `platform_token`, and the header
-- `authorization`.
pub record Headers : Type 0 where
  pub cookie_token : Option String
  pub authorization : Option String

bearer : Option String → Option String
bearer none = none
bearer (some a) = if starts_with a "Bearer " then some (slice a 7 (len a)) else none

unfoldable pub read_token : Headers → Option String
unfolding bearer
read_token h = elim (truthy h.cookie_token) [ some t ↦ some t | none ↦ bearer h.authorization ]

unfoldable pub auth_user : User → AuthUser
auth_user u = record { id = u.id; username = u.username; email = u.email; role = u.role }

module _ (jwt : Jwt) (secret : Option String) where
  -- A lifetime of seven days, in seconds, from the time `now`, in milliseconds.
  unfoldable pub sign_token : AuthUser → ℕ → String
  unfolding jwt_secret
  sign_token u now = jwt.sign u (jwt_secret secret) 604800 now

  module _ ⦃prisma : Prisma⦄ where
    user_of_payload : Db → Option AuthUser → Option AuthUser
    user_of_payload db none = none
    user_of_payload db (some payload) =
        elim (find_first (λ (u : User). str_eq u.id payload.id) db.users) [
          | some u ↦ some (auth_user u)
          | none ↦ none
        ]

    -- `req.user` after the middleware: a request without a valid token goes on as anonymous.
    unfoldable pub auth_optional : Db → ℕ → Headers → Option AuthUser
    unfolding user_of_payload auth_user jwt_secret read_token
    auth_optional db now h = elim (truthy (read_token h)) [
      | none ↦ none
      | some token ↦ user_of_payload db (jwt.verify token (jwt_secret secret) now)
    ]

-- `res.cookie(TOKEN_NAME, token, …)`; seven days, in milliseconds
pub record Cookie : Type 0 where
  pub value : String
  pub http_only : Bool
  pub secure : Bool
  pub max_age : ℕ

unfoldable pub set_auth_cookie : Bool → String → Cookie
set_auth_cookie production token = record {
  value = token;
  http_only = true;
  secure = production;
  max_age = 604800000;
}

-- The two guards: the handler behind them, or a reply without it.
module _ {B : Type 0} where
  unfoldable pub auth_required :
      Option AuthUser → (AuthUser → Db → Reply B × Db) → Db → Reply B × Db
  auth_required none next db = (error_json 401 "authentication required", db)
  auth_required (some u) next db = next u db

  unfoldable pub admin_required : Option AuthUser → (Db → Reply B × Db) → Db → Reply B × Db
  admin_required none next db = (error_json 401 "authentication required", db)
  admin_required (some u) next db = elim u.role [
    | admin ↦ next db
    | user ↦ (error_json 403 "admin only", db)
  ]
