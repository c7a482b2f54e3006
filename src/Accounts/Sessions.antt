-- ===== src/Accounts/Sessions.antt =====
-- Who can log in, and what a session is worth.
use judge.Base.{
  not, ℕ, ◌+◌, ◌/◌, ◌<◌, String, ◌≡◌, ◌≢◌, Bool, true, Option, none, some, str_eq, eq_iff,
  Option-cases, inl, inr, arith,
}
use judge.Schema.{Db, User}
use judge.Prisma.{Prisma, find_first}
use judge.Prisma.Rows.{find_first_where}
use judge.Http.{json, error_json, respond, error_handler}
use judge.Auth.{Jwt, IsVerified, auth_user, sign_token, auth_optional, jwt_secret}
use judge.Accounts.{Bcrypt, LoginBody, Session, login_checks, named, session, login}

module _ ⦃prisma : Prisma⦄ (jwt : Jwt) (secret : Option String) (production : Bool)
    (bcrypt : Bcrypt) where
  -- A login that succeeds is one of a user whose address or name was given, with a password that
  -- fits the stored hash; its session is that user's. Nothing is written.
  pub login_sound :
      (now : ℕ) (b : LoginBody) (db db' : Db) (s : Session)
      → login jwt secret production bcrypt now (some b) db ≡ (json 200 s, db')
      → (u : User) × (find_first (named b.email_or_username b.email_or_username) db.users ≡ some u)
        × (named b.email_or_username b.email_or_username u ≡ true)
        × (bcrypt.compare b.password u.password_hash ≡ true)
        × (s ≡ session jwt secret production now u)
        × (db' ≡ db)
  unfolding login respond
  login_sound now b db db' s e =
      elim (Option-cases (find_first (named b.email_or_username b.email_or_username) db.users)) [
        | inl missing ↦ absurd (ground arith)
        | inr (u, found) ↦ (
          u,
          found,
          find_first_where (named b.email_or_username b.email_or_username) db.users found,
          ground arith,
          ground arith,
          ground arith,
        )
      ]

  -- There is no such user, or the password does not fit.
  abbrev pub unknown : LoginBody → Option User → Bool
  unknown b none = true
  unknown b (some u) = not (bcrypt.compare b.password u.password_hash)

  -- For a body that fits the schema, an unknown name and a wrong password get the same answer, and
  -- nothing is written.
  pub login_uniform :
      (now : ℕ) (b : LoginBody) (db : Db)
      → login_checks b ≡ true
      → unknown b (find_first (named b.email_or_username b.email_or_username) db.users) ≡ true
      → login jwt secret production bcrypt now (some b) db
        ≡ (error_json 401 "invalid credentials", db)
  unfolding login respond error_handler
  login_uniform now b db valid refused =
      elim (Option-cases (find_first (named b.email_or_username b.email_or_username) db.users)) [
        | inl missing ↦ ground (arith, valid, missing)
        | inr (u, found) ↦ ground (arith, valid, found, rw found at refused)
      ]

  -- The token of a session, which is not empty and verifies as jsonwebtoken promises, is accepted
  -- for seven days, counted in whole seconds: the request is then that of the row with the user's identifier, if it is
  -- there, with the role that the row has at that time.
  pub auth_optional-session :
      (at now : ℕ) (u v : User) (db : Db)
      → IsVerified jwt (auth_user u)
      → now / 1000 < at / 1000 + 604800
      → sign_token jwt secret (auth_user u) at ≢ ""
      → find_first (λ (w : User). str_eq w.id u.id) db.users ≡ some v
      → auth_optional jwt secret db now (record {
        cookie_token = some (sign_token jwt secret (auth_user u) at);
        authorization = none;
      })
        ≡ some (auth_user v)
  unfolding auth_optional sign_token
  auth_optional-session at now u v db verified h ne found = ground (
    arith,
    found,
    ne,
    eq_iff (jwt.sign (auth_user u) (jwt_secret secret) 604800 at) "",
    verified (jwt_secret secret) 604800 at now h,
  )
