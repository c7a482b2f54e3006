-- ===== src/Accounts.antt =====
-- platform/backend/src/routes/auth.ts. bcrypt and zod's test of an address are parameters.
pub mod Register
pub mod Sessions
use judge.Base.{
  ℕ, String, ◌≡◌, Bool, true, false, not, ◌&&◌, ◌||◌, List, Option, none, some, any, str_eq, ◌==◌,
  if◌then◌else◌,
}
use judge.Text.{min_length, max_length, every_char, is_lower, is_upper, is_digit}
use judge.Schema.{Db, User}
use judge.Schema
use judge.Prisma.{Prisma, find_first}
use judge.Http.{
  Reply, json, http_error, other_error, Action, pure, gets, or_throw, zod_parse, throw_if, modify,
  respond, ◌>>=◌, ◌>>◌,
}
use judge.Auth.{AuthUser, Jwt, auth_user, sign_token, auth_required, Cookie, set_auth_cookie}

-- `hash` with a salt, `compare`; a password fits its own hash.
pub record Bcrypt : Type 0 where
  pub hash : String → String → String
  pub compare : String → String → Bool
  pub compare-hash : (salt password : String) → compare password (hash salt password) ≡ true

pub record RegisterBody : Type 0 where
  pub email : String
  pub username : String
  pub password : String

-- the class of `/^[a-zA-Z0-9_-]+$/`
abbrev pub is_name_char : ℕ → Bool
is_name_char c = is_lower c || is_upper c || is_digit c || c == b'_' || c == b'-'

-- `registerSchema`
unfoldable pub register_checks : (String → Bool) → RegisterBody → Bool
register_checks is_email b =
    is_email b.email
    && min_length 3 b.username
    && max_length 24 b.username
    && every_char is_name_char b.username
    && min_length 8 b.password
    && max_length 128 b.password

pub record LoginBody : Type 0 where
  pub email_or_username : String
  pub password : String

-- `loginSchema`
unfoldable pub login_checks : LoginBody → Bool
login_checks b = min_length 3 b.email_or_username && min_length 1 b.password

-- the body and the cookie of a reply
pub record Session : Type 0 where
  pub user : AuthUser
  pub cookie : Cookie

-- `OR: [{ email }, { username }]`
abbrev pub named : String → String → User → Bool
named email username u = str_eq u.email email || str_eq u.username username

-- the row of `user.create`, with the defaults of the schema
unfoldable pub new_user : String → ℕ → String → RegisterBody → User
new_user id now password_hash b = record {
  id = id;
  email = b.email;
  username = b.username;
  password_hash = password_hash;
  avatar_url = none;
  bio = none;
  role = Schema.user;
  rating = 1500;
  created_at = now;
}

-- `user.create`: the database refuses a second row with the address or the name.
unfoldable pub create_user : ⦃prisma : Prisma⦄ → User → Action (Unit {0})
create_user ⦃prisma⦄ u = do
  taken ← gets (λ db. any (named u.email u.username) db.users)
  throw_if taken other_error
  modify (λ db. record db { users = prisma.insert u db.users })

module _ (jwt : Jwt) (secret : Option String) (production : Bool) where
  -- `setAuthCookie(res, signToken(auth))` and the body
  unfoldable pub session : ℕ → User → Session
  session now u = record {
    user = auth_user u;
    cookie = set_auth_cookie production (sign_token jwt secret (auth_user u) now);
  }

  module _ ⦃prisma : Prisma⦄ (bcrypt : Bcrypt) where
    -- POST /register
    unfoldable pub register :
        (String → Bool) → String → String → ℕ → Option RegisterBody → Db → Reply Session × Db
    register is_email id salt now body = respond do
      b ← zod_parse (register_checks is_email) body
      existing ← gets (λ db. find_first (named b.email b.username) db.users)
      throw_if (elim existing [ none ↦ false | some _ ↦ true ])
          (http_error 409 "email or username already in use")
      create_user (new_user id now (bcrypt.hash salt b.password) b)
      pure (json 201 (session now (new_user id now (bcrypt.hash salt b.password) b)))

    -- POST /login
    unfoldable pub login : ℕ → Option LoginBody → Db → Reply Session × Db
    login now body = respond do
      b ← zod_parse login_checks body
      u ←
          or_throw
            (← gets (λ db. find_first (named b.email_or_username b.email_or_username) db.users))
            (http_error 401 "invalid credentials")
      throw_if (not (bcrypt.compare b.password u.password_hash))
          (http_error 401 "invalid credentials")
      pure (json 200 (session now u))

-- POST /logout: the cookie is cleared.
unfoldable pub logout : Db → Reply (Option Cookie) × Db
logout db = (json 200 none, db)

-- GET /me
unfoldable pub me : Option AuthUser → Db → Reply AuthUser × Db
me user = auth_required user λ u db. (json 200 u, db)
