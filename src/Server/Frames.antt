-- ===== src/Server/Frames.antt =====
-- What the handlers leave as it is.
use judge.Base.{◌≡◌, refl, ◌∙◌, Bool, true, false, if◌then◌else◌, Option, none, some, arith}
use judge.Schema.{Db, Role}
use judge.Schema
use judge.Http.{
  Reply, Action, Result, ok, throws, respond, Thrown, ◌>>=◌, pure, throw, gets, lift, modify,
  zod_parse, or_throw, throw_if,
}
use judge.Auth.{AuthUser, auth_required, admin_required}

-- Whatever a handler answers, it leaves the part `f` of the database as it is.
pub record Keeps {X B : Type 0} (f : Db → X) (m : Db → B × Db) : Type 0 where
  pub kept : (db : Db) → f (m db).1 ≡ f db

module _ {X : Type 0} {f : Db → X} where
  module _ {A : Type 0} where
    pub pure-Keeps : {a : A} → Keeps f (pure a)
    pure-Keeps = record { kept = λ db. refl }

    pub throw-Keeps : {e : Thrown} → Keeps f (throw {A = A} e)
    throw-Keeps = record { kept = λ db. refl }

    pub gets-Keeps : {g : Db → A} → Keeps f (gets g)
    gets-Keeps = record { kept = λ db. refl }

    pub lift-Keeps : {r : Result A} → Keeps f (lift r)
    lift-Keeps = record { kept = λ db. refl }

    pub or_throw-Keeps : (a : Option A) (e : Thrown) → Keeps f (or_throw a e)
    or_throw-Keeps none e = record { kept = λ db. refl }
    or_throw-Keeps (some a) e = record { kept = λ db. refl }

    pub zod_parse-Keeps : (checks : A → Bool) (a : Option A) → Keeps f (zod_parse checks a)
    zod_parse-Keeps checks none = record { kept = λ db. refl }
    zod_parse-Keeps checks (some a) = record { kept = λ db. ground arith }

    pub bind-Keeps :
        {B : Type 0} {m : Action A} {k : A → Action B}
        → Keeps f m
        → ((a : A) → Keeps f (k a))
        → Keeps f (m >>= k)
    bind-Keeps {B = B} {m = m} {k = k} h g = record {
      kept = λ db. at_result db (m db).0 (m db).1 (h.kept db);
    }
      where
        at_result :
            (db : Db) (r : Result A) (t : Db) → f t ≡ f db → f (((λ s. (r, t)) >>= k) db).1 ≡ f db
        at_result db (ok a) t e = (g a).kept t ∙ e
        at_result db (throws e') t e = e

    pub respond-Keeps : {m : Action (Reply A)} → Keeps f m → Keeps f (respond m)
    unfolding respond
    respond-Keeps {m = m} h = record { kept = λ db. at_result db (m db).0 (m db).1 (h.kept db) }
      where
        at_result :
            (db : Db) (r : Result (Reply A)) (t : Db)
            → f t ≡ f db
            → f (respond (λ s. (r, t)) db).1 ≡ f db
        at_result db (ok a) t e = e
        at_result db (throws e') t e = e

    pub auth_required-Keeps :
        {next : AuthUser → Db → Reply A × Db} (user : Option AuthUser)
        → ((u : AuthUser) → Keeps f (next u))
        → Keeps f (auth_required user next)
    unfolding auth_required
    auth_required-Keeps none h = record { kept = λ db. refl }
    auth_required-Keeps (some u) h = record { kept = λ db. (h u).kept db }

    pub admin_required-Keeps :
        {next : Db → Reply A × Db} (user : Option AuthUser)
        → Keeps f next
        → Keeps f (admin_required user next)
    unfolding admin_required
    admin_required-Keeps none h = record { kept = λ db. refl }
    admin_required-Keeps {next} (some u) h = by_role u.role refl
      where
        by_role : (r : Role) → u.role ≡ r → Keeps f (admin_required (some u) next)
        by_role Schema.user e = record { kept = λ db. ground (arith, e) }
        by_role Schema.admin e = record { kept = λ db. rw e (h.kept db) }

  pub throw_if-Keeps : (b : Bool) (e : Thrown) → Keeps f (throw_if b e)
  throw_if-Keeps b e = record { kept = λ db. refl }

  pub if-Keeps :
      {B : Type 0} {m n : Action B} (b : Bool)
      → Keeps f m
      → Keeps f n
      → Keeps f (if b then m else n)
  if-Keeps true h k = h
  if-Keeps false h k = k

  pub option-Keeps :
      {A B : Type 0} {m : Action B} {k : A → Action B} (o : Option A)
      → Keeps f m
      → ((a : A) → Keeps f (k a))
      → Keeps {B = Result B} f (elim o [ none ↦ m | some a ↦ k a ])
  option-Keeps none h g = h
  option-Keeps (some a) h g = g a

  pub modify-Keeps : (g : Db → Db) → ((db : Db) → f (g db) ≡ f db) → Keeps f (modify g)
  modify-Keeps g h = record { kept = λ db. h db }

pub ruleset keeps = (
  respond-Keeps, bind-Keeps, auth_required-Keeps, admin_required-Keeps, or_throw-Keeps,
  zod_parse-Keeps, gets-Keeps, lift-Keeps, throw_if-Keeps, pure-Keeps,
)
