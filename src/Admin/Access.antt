-- ===== src/Admin/Access.antt =====
-- Only administrators get past the guard of the admin router.
use judge.Base.{ℕ, String, ◌≡◌, ◌≢◌, refl, Option, none, some, ◌⊎◌, inl, inr}
use judge.Schema.{Db, Role}
use judge.Schema
use judge.Prisma.{Prisma}
use judge.Http.{Reply, status}
use judge.Auth.{AuthUser, admin_required}
use judge.Admin.{Fresh, admin_list, admin_get, admin_create, admin_update, admin_delete}
use judge.Admin.Data.{ProblemData}

-- The request is anonymous, or its user is no administrator.
abbrev pub IsOutsider : Option AuthUser → Type 0
IsOutsider none = Unit
IsOutsider (some u) = u.role ≢ Role.admin

-- The answer is 401 or 403, and nothing is written.
abbrev pub IsRefused : {B : Type 0} → Db → Reply B × Db → Type 0
IsRefused db (r, db') = ((status r ≡ 401) ⊎ (status r ≡ 403)) × (db' ≡ db)

pub admin_required-IsRefused :
    {B : Type 0} (user : Option AuthUser) (next : Db → Reply B × Db) (db : Db)
    → IsOutsider user
    → IsRefused db (admin_required user next db)
unfolding admin_required
admin_required-IsRefused none next db h = (inl refl, refl)
admin_required-IsRefused (some u) next db h = by_role u.role refl
  where
    by_role : (r : Role) → u.role ≡ r → IsRefused db (admin_required (some u) next db)
    by_role Schema.user e = rw (e, admin_required) (inr refl, refl)
    by_role Schema.admin e = absurd (h e)

-- Each of the five handlers of the admin router refuses a request that does not come from an
-- administrator: it answers 401 or 403, and leaves the database as it is.
pub admin_IsRefused :
    ⦃prisma : Prisma⦄
    → (fresh : Fresh) (user : Option AuthUser) (id : String) (now : ℕ) (body : Option ProblemData)
      (db : Db)
    → IsOutsider user
    → IsRefused db (admin_list user db)
      × IsRefused db (admin_get user id db)
      × IsRefused db (admin_create fresh user id now body db)
      × IsRefused db (admin_update fresh user id body db)
      × IsRefused db (admin_delete user id db)
unfolding admin_list admin_get admin_create admin_update admin_delete
admin_IsRefused fresh user id now body db h = (
  admin_required-IsRefused user _ db h,
  admin_required-IsRefused user _ db h,
  admin_required-IsRefused user _ db h,
  admin_required-IsRefused user _ db h,
  admin_required-IsRefused user _ db h,
)
