-- ===== src/Tests/Accounts.antt =====
-- Registration, login and sessions.
use judge.Base.{◌≡◌, ◌≢◌, refl, true, false, none, some, eq_iff, arith}
use judge.Schema.{User}
use judge.Prisma.{find_first}
use judge.Prisma.Memory.{memory}
use judge.Http.{respond}
use judge.Auth.{auth_user, auth_optional, sign_token, jwt_secret}
use judge.Accounts.{RegisterBody, LoginBody, login, session, login_checks, named}
use judge.Accounts.Register.{IsUnique}
use judge.Accounts.Sessions.{login_sound, auth_optional-session}
use judge.Text.{min_length}
use judge.Tests.World.{bcrypt, jwt, jwt-IsVerified, alice_row, db}

abbrev pub carol : RegisterBody
carol = record { email = "carol@x.org"; username = "carol"; password = "password9" }

pub db-IsUnique : IsUnique db.users
db-IsUnique = record {
  emails = λ e.
      ground
        (arith, eq_iff "alice@x.org" e, eq_iff "root@x.org" e, eq_iff "alice@x.org" "root@x.org");
  usernames = λ n. ground (arith, eq_iff "alice" n, eq_iff "root" n, eq_iff "alice" "root");
}

abbrev good : LoginBody
good = record { email_or_username = "alice"; password = "password" }

login_sound_example :
    (u : User) × (find_first ⦃p = memory⦄ (named "alice" "alice") db.users ≡ some u)
    × (named "alice" "alice" u ≡ true)
    × (bcrypt.compare "password" u.password_hash ≡ true)
    × (session jwt none false 10 alice_row ≡ session jwt none false 10 u)
    × (db ≡ db)
unfolding login respond login_checks min_length memory
login_sound_example =
    login_sound ⦃prisma = memory⦄ jwt none false bcrypt 10 good db db
      (session jwt none false 10 alice_row) refl

token_there : sign_token jwt none (auth_user alice_row) 100 ≢ ""
unfolding sign_token jwt_secret auth_user
token_there e = ground (arith, eq_iff (sign_token jwt none (auth_user alice_row) 100) "")

auth_optional-session_example :
    auth_optional jwt none ⦃prisma = memory⦄ db 604799000 (record {
      cookie_token = some (sign_token jwt none (auth_user alice_row) 100);
      authorization = none;
    })
    ≡ some (auth_user alice_row)
unfolding memory auth_user
auth_optional-session_example =
    auth_optional-session ⦃prisma = memory⦄ jwt none false bcrypt 100 604799000 alice_row alice_row
      db jwt-IsVerified (omega arith) token_there refl
