-- ===== src/Server/Safety.antt =====
-- What holds of the server, whatever requests come.
use judge.Base.{
  ◌≡◌, refl, ap, subst, sym, arith, Bool, true, false, not, ◌&&◌, List, [], ◌∷◌, Option, none, some,
  count, if◌then◌else◌, ◌∙◌,
}
use judge.Schema.{Db, User}
use judge.Prisma.{Prisma}
use judge.Auth.{AuthUser, auth_optional}
use judge.Accounts.Register.{IsUnique, has_rights}
use judge.Admin.Access.{IsOutsider}
use judge.Server.{Platform, Incoming, Process, Answer, serve, handle, too_many, unrouted}
use judge.Server.Routes.{Endpoint, route, is_limited}
use judge.Server.Effects.{Audience, audience, Effect, Grown, handle-Effect}
use judge.Server.Effects
use judge.Server.Writers.{catalogue}

abbrev takes_anyone : Audience → Bool
takes_anyone Effects.everyone = true
takes_anyone Effects.newcomers = true
takes_anyone _ = false

-- The endpoints at which a request without a session can write: registration, the problem of the day
-- and the callback.
abbrev pub is_open : Option Endpoint → Bool
is_open none = false
is_open (some e) = takes_anyone (audience e)

same_users : (us vs : List User) → vs ≡ us → Grown us vs
same_users us vs e = record {
  unique = λ h. subst IsUnique (sym e) h;
  same_admins = ap (count has_rights) e;
}

Effect-Grown :
    (a : Audience) (u : Option AuthUser) (d t : Db) → Effect a u d t → Grown d.users t.users
Effect-Grown Effects.readers u d t e = same_users d.users t.users (ap (λ (x : Db). x.users) e)
Effect-Grown Effects.members none d t e = same_users d.users t.users (ap (λ (x : Db). x.users) e)
Effect-Grown Effects.members (some u) d t e = same_users d.users t.users (ap (λ x. x.1) e)
Effect-Grown Effects.everyone u d t e = same_users d.users t.users (ap (λ x. x.1) e)
Effect-Grown Effects.newcomers u d t e = e.1
Effect-Grown Effects.admins u d t e = same_users d.users t.users e.0

Effect-catalogue :
    (a : Audience) (u : Option AuthUser) (d t : Db)
    → IsOutsider u
    → Effect a u d t
    → catalogue t ≡ catalogue d
Effect-catalogue Effects.readers u d t out e = ap catalogue e
Effect-catalogue Effects.members none d t out e = ap catalogue e
Effect-catalogue Effects.members (some u) d t out e = ap (λ x. x.0) e
Effect-catalogue Effects.everyone u d t out e = ap (λ x. x.0) e
Effect-catalogue Effects.newcomers u d t out e = e.0
Effect-catalogue Effects.admins u d t out e = ap catalogue (e.1 out)

Effect-anonymous : (a : Audience) (d t : Db) → Effect a none d t → takes_anyone a ≡ false → t ≡ d
Effect-anonymous Effects.readers d t e o = e
Effect-anonymous Effects.members d t e o = e
Effect-anonymous Effects.everyone d t e o = absurd (ground (arith, o))
Effect-anonymous Effects.newcomers d t e o = absurd (ground (arith, o))
Effect-anonymous Effects.admins d t e o = e.1 tt

module _ ⦃prisma : Prisma⦄ (p : Platform) where
  -- What holds of the database as it is, and of what each handler makes of it, holds after a request.
  serve_lem :
      (P : Option Endpoint → Db → Type 0) (q : Incoming) (s : Process)
      → P none s.db
      → ((e : Endpoint) → P (some e) s.db)
      → ((e : Endpoint)
          → P
              (some e)
              (handle p q (auth_optional p.jwt p.jwt_secret s.db q.now q.headers) e s).1.db)
      → P (route q.method q.path) (serve p q s).1.db
  unfolding serve
  serve_lem P q s h k g = by_limit (is_limited q.path && not q.admitted) (route q.method q.path)
    where
      by_limit :
          (b : Bool) (r : Option Endpoint)
          → P r
              (if b then (too_many, s) else elim r as (λ _. Answer × Process) [
                | none ↦ (unrouted, s)
                | some e ↦ handle p q (auth_optional p.jwt p.jwt_secret s.db q.now q.headers) e s
              ]).1.db
      by_limit true none = h
      by_limit true (some e) = k e
      by_limit false none = h
      by_limit false (some e) = g e

  serve-Grown : (q : Incoming) (s : Process) → Grown s.db.users (serve p q s).1.db.users
  serve-Grown q s =
      serve_lem (λ r t. Grown s.db.users t.users) q s (same_users _ _ refl)
        (λ e. same_users _ _ refl) λ e. Effect-Grown (audience e) _ s.db _ (handle-Effect p q _ e s)

  -- The requests that the process gets, one after the other.
  abbrev pub history : List Incoming → Process → Process
  history [] s = s
  history (q ∷ qs) s = history qs (serve p q s).1

  -- Whatever requests come, and however many: where no two users shared an address or a name at the
  -- beginning, none do at the end, and there are as many administrators as there were.
  pub history-IsUnique :
      (qs : List Incoming) (s : Process)
      → IsUnique s.db.users
      → IsUnique (history qs s).db.users
        × (count has_rights (history qs s).db.users ≡ count has_rights s.db.users)
  history-IsUnique [] s h = (h, refl)
  history-IsUnique (q ∷ qs) s h =
      let step = serve-Grown q s in
      let rest = history-IsUnique qs (serve p q s).1 (step.unique h) in
      (rest.0, rest.1 ∙ step.same_admins)

  -- A request whose session is not that of an administrator, to whatever path, leaves all problems,
  -- starter codes, test cases and tags as they are.
  pub outsider_keeps_catalogue :
      (q : Incoming) (s : Process)
      → IsOutsider (auth_optional p.jwt p.jwt_secret s.db q.now q.headers)
      → catalogue (serve p q s).1.db ≡ catalogue s.db
  outsider_keeps_catalogue q s out =
      serve_lem (λ r t. catalogue t ≡ catalogue s.db) q s refl (λ e. refl)
        λ e. Effect-catalogue (audience e) _ s.db _ out (handle-Effect p q _ e s)

  -- A request without a session leaves the database as it is, unless it registers, asks for the
  -- problem of the day, or is a callback.
  pub anonymous_reads :
      (q : Incoming) (s : Process)
      → auth_optional p.jwt p.jwt_secret s.db q.now q.headers ≡ none
      → is_open (route q.method q.path) ≡ false
      → (serve p q s).1.db ≡ s.db
  anonymous_reads q s nobody =
      serve_lem (λ r t. is_open r ≡ false → t ≡ s.db) q s (λ o. refl) (λ e o. refl)
        λ e.
          subst (λ v. is_open (some e) ≡ false → (handle p q v e s).1.db ≡ s.db) (sym nobody)
            (Effect-anonymous (audience e) s.db _ (handle-Effect p q none e s))
