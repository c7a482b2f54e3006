-- ===== src/Seed/Users.antt =====
-- The users of the seed.
use judge.Base.{
  ℕ, ◌≡◌, refl, ◌∙◌, Bool, true, false, not, ◌&&◌, ◌||◌, String, List, [], ◌∷◌, any, every,
  every_of_none, str_eq, eq_iff, if◌then◌else◌, arith, Bool-cases, inl, inr,
}
use judge.Schema.{Db, User, Role}
use judge.Schema
use judge.Prisma.{Prisma}
use judge.Prisma.Rows.{any-modify, any-insert, every-insert, every-modify, every-modify_where}
use judge.Http.{ok}
use judge.Accounts.{create_user, named}
use judge.Seed.Main.{
  SeedUser, seed_user_row, has_name, upsert_user, promoted, untouched, admin_user, demo_user,
}

-- Another user has the address.
abbrev pub has_address : SeedUser → User → Bool
has_address o u = str_eq u.email o.email && not (str_eq u.username o.username)

abbrev pub AddressFree : SeedUser → Db → Type 0
AddressFree o db = any (has_address o) db.users ≡ false

not_named :
    (o : SeedUser) (us : List User)
    → any (has_name o.username) us ≡ false
    → any (has_address o) us ≡ false
    → any (named o.email o.username) us ≡ false
not_named o [] h k = refl
not_named o (u ∷ us) h k = ground (arith, not_named o us)

module _ ⦃prisma : Prisma⦄ (id : String) (now : ℕ) (password_hash : String) (o : SeedUser)
    (update : User → User) where
  abbrev pub upserted : List User → List User
  upserted us =
      if any (has_name o.username) us
      then prisma.modify (has_name o.username) update us
      else prisma.insert (seed_user_row id now password_hash o) us

  pub upsert_user_run :
      (db : Db)
      → AddressFree o db
      → upsert_user id now password_hash o update db
        ≡ (ok tt, record db { users = upserted db.users })
  unfolding upsert_user create_user seed_user_row
  upsert_user_run db free = ground (arith, free, not_named o db.users)

  pub any-upserted :
      (q : User → Bool)
      → ((r : User) → q (update r) ≡ q r)
      → (us : List User)
      → any q (upserted us) ≡ (
          any q us
          || (not (any (has_name o.username) us) && q (seed_user_row id now password_hash o)))
  any-upserted q keep us = elim (Bool-cases (any (has_name o.username) us)) [
    | inl e ↦ rw e (any-modify q (has_name o.username) update us keep ∙ ground arith)
    | inr e ↦ rw e (any-insert q (seed_user_row id now password_hash o) us ∙ ground arith)
  ]

-- Whoever has the name `admin` is an administrator.
abbrev pub is_promoted : User → Bool
is_promoted u =
    not (str_eq u.username "admin") || elim u.role [ Schema.admin ↦ true | Schema.user ↦ false ]

module _ ⦃prisma : Prisma⦄ (id : String) (now : ℕ) (password_hash : String) where
  -- The first user of the seed is an administrator, made or promoted.
  pub admin-is_promoted :
      (us : List User)
      → every is_promoted (upserted id now password_hash admin_user promoted us) ≡ true
  unfolding seed_user_row
  admin-is_promoted us = elim (Bool-cases (any (has_name "admin") us)) [
    | inl e ↦ rw e (
        every-modify_where (λ u. elim u.role [ Schema.admin ↦ true | Schema.user ↦ false ])
          (has_name "admin") promoted us (λ r. refl))
    | inr e ↦ rw e (
        every-insert is_promoted (seed_user_row id now password_hash admin_user) us
        ∙ ground (
          arith,
          every_of_none (has_name "admin")
              (λ u. elim u.role [ Schema.admin ↦ true | Schema.user ↦ false ]) us e,
        ))
  ]

  -- The second leaves the first as it is.
  pub demo-is_promoted :
      (us : List User)
      → every is_promoted us ≡ true
      → every is_promoted (upserted id now password_hash demo_user untouched us) ≡ true
  unfolding seed_user_row
  demo-is_promoted us h = elim (Bool-cases (any (has_name "demo") us)) [
    | inl e ↦ rw e (every-modify is_promoted (has_name "demo") untouched us (λ r w q. q) h)
    | inr e ↦ rw e (
        every-insert is_promoted (seed_user_row id now password_hash demo_user) us
        ∙ ground (arith, h, eq_iff "demo" "admin"))
  ]
