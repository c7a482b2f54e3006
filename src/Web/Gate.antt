-- ===== src/Web/Gate.antt =====
-- The guards of the browser agree with those of the server.
use judge.Base.{◌≡◌, refl, ◌↔◌, Option, none, some, true, false, arith, any, Bool}
use judge.Schema.{Db, Role}
use judge.Schema
use judge.Prisma.{Prisma}
use judge.Http.{status, respond}
use judge.Auth.{AuthUser, admin_required, auth_required}
use judge.Accounts.{me}
use judge.Admin.{admin_list}
use judge.Client.{request}
use judge.Web.Wire.{fetched}
use judge.Web.Me.{Hook, new_hook, me_answered, me_of, links, Link, admin_pages}
use judge.Web.AdminList.{Gate, gate}

-- The hook of a page that has the answer of the server to a user's request.
abbrev pub hook_of : Option AuthUser → Db → Hook
hook_of user db = me_answered (fetched (me user db).0) new_hook

abbrev pub is_admin_link : Link → Bool
is_admin_link admin_pages = true
is_admin_link _ = false

-- With the server's answer the hook knows the user of the session, or that there is none; the page
-- of the administrators asks for the problems exactly where the server gives them, and the bar has
-- a link to it exactly there.
pub hook_agrees :
    ⦃prisma : Prisma⦄
    → (user : Option AuthUser) (db : Db)
    → ((hook_of user db).me ≡ user)
      × ((gate (hook_of user db) ≡ Gate.load) ↔ (status (admin_list user db).0 ≡ 200))
      × ((any is_admin_link (links (hook_of user db)) ≡ true)
          ↔ (status (admin_list user db).0 ≡ 200))
unfolding me_answered me_of fetched request new_hook me auth_required gate admin_list admin_required
    links respond
hook_agrees none db = (refl, ground arith, ground arith)
hook_agrees (some u) db = (refl, (by_role u.role refl).0, (by_role u.role refl).1)
  where
    by_role :
        (r : Role)
        → u.role ≡ r
        → ((gate (hook_of (some u) db) ≡ Gate.load) ↔ (status (admin_list (some u) db).0 ≡ 200))
          × ((any is_admin_link (links (hook_of (some u) db)) ≡ true)
              ↔ (status (admin_list (some u) db).0 ≡ 200))
    by_role Schema.user e = rw e (ground arith, ground arith)
    by_role Schema.admin e = rw e (ground arith, ground arith)
