-- ===== src/Accounts/Register.antt =====
-- Registration keeps addresses and names unique, and gives no rights.
use judge.Base.{
  ℕ, ◌≤◌, String, ◌≡◌, refl, Bool, true, false, List, [], ◌∷◌, Option, none, some, any, count,
  str_eq, eq_iff, ◌⊎◌, Bool-cases, inl, inr, arith,
}
use judge.Schema.{Db, User, Role}
use judge.Prisma.{Prisma}
use judge.Prisma.Rows.{row_laws, count-insert, find_first_absent}
use judge.Http.{respond}
use judge.Auth.{Jwt}
use judge.Accounts.{Bcrypt, RegisterBody, register_checks, named, new_user, create_user, register}

-- No two users share an address, and no two share a name.
pub record IsUnique (users : List User) : Type 0 where
  pub emails : (e : String) → count (λ (u : User). str_eq u.email e) users ≤ 1
  pub usernames : (n : String) → count (λ (u : User). str_eq u.username n) users ≤ 1

abbrev pub has_rights : User → Bool
has_rights u = elim u.role [ Role.admin ↦ true | Role.user ↦ false ]

none_named :
    (e n : String) (users : List User)
    → any (named e n) users ≡ false
    → (count (λ (u : User). str_eq u.email e) users ≡ 0)
      × (count (λ (u : User). str_eq u.username n) users ≡ 0)
none_named e n [] h = (refl, refl)
none_named e n (u ∷ users) h = ground (arith, none_named e n users)

module _ ⦃prisma : Prisma⦄ where
  IsUnique-insert :
      (u : User) (users : List User)
      → any (named u.email u.username) users ≡ false
      → IsUnique users
      → IsUnique (prisma.insert u users)
  IsUnique-insert u users h k = record {
    emails = λ e. rw (count-insert (λ (v : User). str_eq v.email e) u users) (
        ground
          (arith, k.emails e, none_named u.email u.username users h, eq_iff u.email e, same e));
    usernames = λ n. rw (count-insert (λ (v : User). str_eq v.username n) u users) (
        ground (
          arith,
          k.usernames n,
          none_named u.email u.username users h,
          eq_iff u.username n,
          same_name n,
        ));
  }
    where
      same : (e : String) → u.email ≡ e → count (λ (v : User). str_eq v.email e) users ≡ 0
      same e p = rw (← p) (none_named u.email u.username users h).0

      same_name :
          (n : String) → u.username ≡ n → count (λ (v : User). str_eq v.username n) users ≡ 0
      same_name n p = rw (← p) (none_named u.email u.username users h).1

  -- Registration leaves the users as they are, or adds one whose address and name are new.
  register_cases :
      (jwt : Jwt) (secret : Option String) (production : Bool) (bcrypt : Bcrypt)
      (is_email : String → Bool) (id salt : String) (now : ℕ) (body : Option RegisterBody) (db : Db)
      → ((register jwt secret production bcrypt is_email id salt now body db).1 ≡ db)
        ⊎ ((b : RegisterBody) × (any (named b.email b.username) db.users ≡ false)
            × ((register jwt secret production bcrypt is_email id salt now body db).1.users
                ≡ prisma.insert (new_user id now (bcrypt.hash salt b.password) b) db.users))
  unfolding register respond create_user new_user
  register_cases jwt secret production bcrypt is_email id salt now none db = inl refl
  register_cases jwt secret production bcrypt is_email id salt now (some b) db =
      elim (Bool-cases (any (named b.email b.username) db.users)) [
        | inl taken ↦ inl (ground (arith, taken))
        | inr free ↦ elim (Bool-cases (register_checks is_email b)) [
          | inl valid ↦ inr (
            b,
            free,
            ground (arith, free, valid, find_first_absent (named b.email b.username) db.users free),
          )
          | inr bad ↦ inl (ground (arith, bad))
        ]
      ]

  -- Whatever is asked and whatever the answer, registration keeps addresses and names unique.
  pub register-IsUnique :
      (jwt : Jwt) (secret : Option String) (production : Bool) (bcrypt : Bcrypt)
      (is_email : String → Bool) (id salt : String) (now : ℕ) (body : Option RegisterBody) (db : Db)
      → IsUnique db.users
      → IsUnique (register jwt secret production bcrypt is_email id salt now body db).1.users
  unfolding new_user
  register-IsUnique jwt secret production bcrypt is_email id salt now body db h =
      elim (register_cases jwt secret production bcrypt is_email id salt now body db) [
        | inl same ↦ rw same h
        | inr (b, free, added) ↦
            rw added
              (IsUnique-insert (new_user id now (bcrypt.hash salt b.password) b) db.users free h)
      ]

  -- Registration never changes what the administrators are: their number stays.
  pub register_no_admin :
      (jwt : Jwt) (secret : Option String) (production : Bool) (bcrypt : Bcrypt)
      (is_email : String → Bool) (id salt : String) (now : ℕ) (body : Option RegisterBody) (db : Db)
      → count has_rights
          (register jwt secret production bcrypt is_email id salt now body db).1.users
        ≡ count has_rights db.users
  unfolding new_user
  register_no_admin jwt secret production bcrypt is_email id salt now body db =
      elim (register_cases jwt secret production bcrypt is_email id salt now body db) [
        | inl same ↦ rw same
        | inr (b, free, added) ↦ rw added (simp row_laws (omega arith))
      ]
