-- ===== src/Http.antt =====
-- platform/backend/src/middleware/error.ts, and the shape of every handler: an action on the
-- database that returns a reply or throws, whose `catch (e) { next(e) }` ends in `errorHandler`.
-- An action keeps what it wrote before it threw.
use judge.Base.{◌≡◌, ap, ℕ, String, Bool, Option, none, some, if◌then◌else◌}
use judge.Schema.{Db}

-- A thrown value, as far as `errorHandler` tells them apart: a ZodError; an object with `status`
-- and `message`, which an `HttpError` is, and an axios error that holds a response; any other.
pub data Thrown : Type 0 where
  zod_error : Thrown
  http_error : ℕ → String → Thrown
  other_error : Thrown

pub data Result (A : Type 0) : Type 0 where
  ok : A → Result A
  throws : Thrown → Result A

abbrev pub Action : Type 0 → Type 0
Action A = Db → Result A × Db

module _ {A : Type 0} where
  abbrev pub pure : A → Action A
  pure a db = (ok a, db)

  abbrev pub throw : Thrown → Action A
  throw e db = (throws e, db)

  abbrev pub gets : (Db → A) → Action A
  gets f db = (ok (f db), db)

  -- an answer of another service
  abbrev pub lift : Result A → Action A
  lift r db = (r, db)

  -- `if (!found) throw new HttpError(status, message)`
  abbrev pub or_throw : Option A → Thrown → Action A
  or_throw none e = throw e
  or_throw (some a) e = pure a

  -- `schema.parse(body)`: the body has the shape of the schema or not, and then the checks of the
  -- schema are made.
  abbrev pub zod_parse : (A → Bool) → Option A → Action A
  zod_parse checks none = throw zod_error
  zod_parse checks (some a) = if checks a then pure a else throw zod_error

infixl 5 ◌>>=◌ ◌>>◌
abbrev pub ◌>>=◌ : {A B : Type 0} → Action A → (A → Action B) → Action B
◌>>=◌ m f db = let (r, db') = m db in elim r [ ok a ↦ f a db' | throws e ↦ throw e db' ]

abbrev pub ◌>>◌ : {A B : Type 0} → Action A → Action B → Action B
m >> k = m >>= λ _. k

-- What follows an action that succeeds.
pub bind_ok :
    {A B : Type 0} (m : Action A) (f : A → Action B) (db db' : Db) (a : A)
    → m db ≡ (ok a, db')
    → (m >>= f) db ≡ f a db'
bind_ok m f db db' a e =
    ap (λ done. elim done.0 [ ok a ↦ f a done.1 | throws e ↦ throw e done.1 ]) e

abbrev pub modify : (Db → Db) → Action (Unit {0})
modify f db = (ok tt, f db)

-- `if (test) throw e`
abbrev pub throw_if : Bool → Thrown → Action (Unit {0})
throw_if b e db = (if b then throws e else ok tt, db)

-- What the server sends: a JSON body, one of the error bodies, or nothing but a status.
pub data Reply (B : Type 0) : Type 0 where
  json : ℕ → B → Reply B
  validation : Reply B
  error_json : ℕ → String → Reply B

abbrev pub status : {B : Type 0} → Reply B → ℕ
status (json code body) = code
status validation = 400
status (error_json code message) = code

unfoldable pub error_handler : {B : Type 0} → Thrown → Reply B
error_handler zod_error = validation
error_handler (http_error code message) = error_json code message
error_handler other_error = error_json 500 "internal_server_error"

-- `try { … res.json(…) } catch (e) { next(e) }`
unfoldable pub respond : {B : Type 0} → Action (Reply B) → Db → Reply B × Db
unfolding error_handler
respond m db =
    let (r, db') = m db in elim r [ ok reply ↦ (reply, db') | throws e ↦ (error_handler e, db') ]
