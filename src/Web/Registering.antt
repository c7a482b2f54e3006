-- ===== src/Web/Registering.antt =====
-- The registration form against the schema of the server.
use judge.Base.{ℕ, String, Bool, true, false, ◌&&◌, ◌≡◌, refl, ◌∙◌, Option, some, arith}
use judge.Text.{max_length, every_char}
use judge.Schema.{Db}
use judge.Prisma.{Prisma}
use judge.Http.{validation, respond}
use judge.Auth.{Jwt}
use judge.Accounts.{Bcrypt, RegisterBody, register, register_checks, is_name_char}
use judge.Client.{request}
use judge.Web.Wire.{fetched}
use judge.Web.Forms.{Sent, sending, browser_allows, register_answered}

-- Of the bodies that the browser submits, the server takes those with an address that its own test
-- takes, a name of letters, digits, `_` and `-`, and a password of at most 128 units, and no other: the
-- browser ensures the other limits.
pub register_checks-allowed :
    (browser_email is_email : String → Bool) (b : RegisterBody)
    → browser_allows browser_email b ≡ true
    → register_checks is_email b
      ≡ (is_email b.email && every_char is_name_char b.username && max_length 128 b.password)
unfolding register_checks browser_allows
register_checks-allowed browser_email is_email b h = ground arith

module _ ⦃prisma : Prisma⦄ (jwt : Jwt) (secret : Option String) (production : Bool)
    (bcrypt : Bcrypt) (browser_email is_email : String → Bool) where
  refused_run :
      (id salt : String) (now : ℕ) (b : RegisterBody) (db : Db)
      → register_checks is_email b ≡ false
      → register jwt secret production bcrypt is_email id salt now (some b) db ≡ (validation, db)
  unfolding register respond
  refused_run id salt now b db e = ground (arith, e)

  -- A body that the browser submits, with a password of more than 128 units or a name with another
  -- character: the form stays, with the message "validation", and nothing is written.
  pub form_refused :
      (id salt : String) (now : ℕ) (b : RegisterBody) (db : Db) (s : Sent)
      → browser_allows browser_email b ≡ true
      → (every_char is_name_char b.username && max_length 128 b.password) ≡ false
      → let (r, db') = register jwt secret production bcrypt is_email id salt now (some b) db in
        (register_answered (fetched r) (sending s) ≡ record s { error = some "validation" })
        × (db' ≡ db)
  unfolding register_answered sending fetched request
  form_refused id salt now b db s h bad =
      let refused : register_checks is_email b ≡ false =
        register_checks-allowed browser_email is_email b h ∙ ground (arith, bad) in
      rw (refused_run id salt now b db refused) (refl, refl)
