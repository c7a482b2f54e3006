-- ===== src/Server/Effects.antt =====
-- What each endpoint can change.
use judge.Base.{◌≡◌, refl, ap, List, Option, none, some, count}
use judge.Schema.{Db, User}
use judge.Prisma.{Prisma}
use judge.Http.{Reply}
use judge.Auth.{AuthUser, auth_required}
use judge.Accounts.Register.{IsUnique, register-IsUnique, has_rights, register_no_admin}
use judge.Submit.{submit}
use judge.Contests.{register_contest}
use judge.Discussions.{create_discussion, create_reply, upvote}
use judge.Admin.Access.{IsOutsider, admin_IsRefused, admin_required-IsRefused}
use judge.Server.{Platform, Incoming, Process, handle}
use judge.Server.Routes
use judge.Server.Routes.{Endpoint}
use judge.Server.Frames.{Keeps}
use judge.Server.Readers
use judge.Server.Readers.{whole}
use judge.Server.Writers
use judge.Server.Writers.{static, catalogue, users_of}

-- An endpoint only reads, or it is for the signed-in, for all, for those who register, or for
-- administrators.
pub data Audience : Type 0 where
  readers members everyone newcomers admins : Audience

abbrev pub audience : Endpoint → Audience
audience Routes.register = newcomers
audience (Routes.submit slug) = members
audience Routes.create_discussion = members
audience (Routes.reply id) = members
audience (Routes.upvote id) = members
audience (Routes.join slug) = members
audience Routes.daily = everyone
audience Routes.callback = everyone
audience Routes.admin_list = admins
audience Routes.admin_create = admins
audience Routes.admin_other = admins
audience (Routes.admin_get id) = admins
audience (Routes.admin_update id) = admins
audience (Routes.admin_delete id) = admins
audience _ = readers

-- The users after a registration.
pub record Grown (before after : List User) : Type 0 where
  pub unique : IsUnique before → IsUnique after
  pub same_admins : count has_rights after ≡ count has_rights before

-- How the database `t` may differ from `d` after a request of an audience, by the session's user.
abbrev pub Effect : Audience → Option AuthUser → Db → Db → Type 0
Effect readers u d t = t ≡ d
Effect members none d t = t ≡ d
Effect members (some u) d t = static t ≡ static d
Effect everyone u d t = static t ≡ static d
Effect newcomers u d t = (catalogue t ≡ catalogue d) × Grown d.users t.users
Effect admins u d t = (t.users ≡ d.users) × (IsOutsider u → t ≡ d)

member :
    {B : Type 0} (m : Option AuthUser → Db → Reply B × Db)
    → ((u : Option AuthUser) → Keeps static (m u))
    → ((db : Db) → (m none db).1 ≡ db)
    → (u : Option AuthUser) (db : Db) → Effect members u db (m u db).1
member m h k none db = k db
member m h k (some u) db = (h (some u)).kept db

module _ ⦃prisma : Prisma⦄ (p : Platform) where
  pub handle-Effect :
      (q : Incoming) (u : Option AuthUser) (e : Endpoint) (s : Process)
      → Effect (audience e) u s.db (handle p q u e s).1.db
  unfolding handle auth_required submit register_contest create_discussion create_reply upvote
  handle-Effect q u Routes.health s = refl
  handle-Effect q u Routes.register s = (
    (Writers.register_frame p.jwt p.jwt_secret p.production p.bcrypt p.is_email q.id q.salt q.now
          q.register_body).kept
        s.db,
    record {
      unique =
          register-IsUnique p.jwt p.jwt_secret p.production p.bcrypt p.is_email q.id q.salt q.now
            q.register_body s.db;
      same_admins =
          register_no_admin p.jwt p.jwt_secret p.production p.bcrypt p.is_email q.id q.salt q.now
            q.register_body s.db;
    },
  )
  handle-Effect q u Routes.login s =
      (Readers.login_reads p.jwt p.jwt_secret p.production p.bcrypt q.now q.login_body).kept s.db
  handle-Effect q u Routes.logout s = Readers.logout_reads.kept s.db
  handle-Effect q u Routes.me s = (Readers.me_reads u).kept s.db
  handle-Effect q u Routes.problems s =
      (Readers.list_problems_reads p.texts u q.problem_query).kept s.db
  handle-Effect q u (Routes.problem slug) s = (Readers.get_problem_reads slug).kept s.db
  handle-Effect q u (Routes.run slug) s =
      (Readers.run_problem_reads p.base64 p.service u slug q.run_body).kept s.db
  handle-Effect q u (Routes.submit slug) s =
      member (λ v. submit p.crypto p.env p.base64 p.service v slug q.submit_body q.id q.ids q.now)
        (λ v.
          Writers.submit_frame p.crypto p.env p.base64 p.service v slug q.submit_body q.id q.ids
            q.now)
        (λ db. refl) u s.db
  handle-Effect q u Routes.submissions s =
      (Readers.list_submissions_reads u q.submission_query).kept s.db
  handle-Effect q u (Routes.submission id) s = (Readers.get_submission_reads u id).kept s.db
  handle-Effect q u Routes.discussions s =
      (Readers.list_discussions_reads q.discussion_query).kept s.db
  handle-Effect q u Routes.create_discussion s =
      member (λ v. create_discussion v q.id q.now q.create_body)
        (λ v. Writers.create_discussion_frame v q.id q.now q.create_body) (λ db. refl) u s.db
  handle-Effect q u (Routes.discussion id) s = (Readers.get_discussion_reads id).kept s.db
  handle-Effect q u (Routes.reply id) s =
      member (λ v. create_reply v id q.id q.now q.reply_body)
        (λ v. Writers.create_reply_frame v id q.id q.now q.reply_body) (λ db. refl) u s.db
  handle-Effect q u (Routes.upvote id) s =
      member (λ v. upvote v id) (λ v. Writers.upvote_frame v id) (λ db. refl) u s.db
  handle-Effect q u Routes.contests s = (Readers.list_contests_reads q.now).kept s.db
  handle-Effect q u (Routes.contest slug) s = (Readers.get_contest_reads slug).kept s.db
  handle-Effect q u (Routes.join slug) s =
      member (λ v. register_contest v slug) (λ v. Writers.register_contest_frame v slug)
        (λ db. refl) u s.db
  handle-Effect q u Routes.leaderboard s = Readers.get_leaderboard_reads.kept s.db
  handle-Effect q u Routes.tags s = (Readers.list_tags_reads p.collate).kept s.db
  handle-Effect q u Routes.daily s = (Writers.get_daily_frame q.now).kept s.db
  handle-Effect q u Routes.languages s = refl
  handle-Effect q u (Routes.user name) s = (Readers.get_user_reads name).kept s.db
  handle-Effect q u Routes.admin_list s = (
    ap users_of ((Readers.admin_list_reads u).kept s.db),
    λ h. (admin_IsRefused q.fresh u q.id q.now q.problem_body s.db h).0.1,
  )
  handle-Effect q u Routes.admin_create s = (
    (Writers.admin_create_users q.fresh u q.id q.now q.problem_body).kept s.db,
    λ h. (admin_IsRefused q.fresh u q.id q.now q.problem_body s.db h).2.1,
  )
  handle-Effect q u Routes.admin_other s =
      ((Writers.guard_users u).kept s.db, λ h. (admin_required-IsRefused u _ s.db h).1)
  handle-Effect q u (Routes.admin_get id) s = (
    ap users_of ((Readers.admin_get_reads u id).kept s.db),
    λ h. (admin_IsRefused q.fresh u id q.now q.problem_body s.db h).1.1,
  )
  handle-Effect q u (Routes.admin_update id) s = (
    (Writers.admin_update_users q.fresh u id q.problem_body).kept s.db,
    λ h. (admin_IsRefused q.fresh u id q.now q.problem_body s.db h).3.1,
  )
  handle-Effect q u (Routes.admin_delete id) s = (
    (Writers.admin_delete_users u id).kept s.db,
    λ h. (admin_IsRefused q.fresh u id q.now q.problem_body s.db h).4.1,
  )
  handle-Effect q u Routes.callback s =
      (Writers.callback_frame p.crypto p.env.callback_secret p.base64 p.to_ms q.callback_query
          q.result_body q.now).kept
        s.db
