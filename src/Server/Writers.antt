-- ===== src/Server/Writers.antt =====
-- What the handlers that write leave as it is.
use judge.Base.{
  ℕ, String, ◌≡◌, refl, ◌∙◌, Bool, List, [], ◌∷◌, Option, none, some, suc, arith, length, ◌==◌,
  get_elem?, if◌then◌else◌,
}
use judge.Schema.{Db, User, Problem, StarterCode, TestCase, Tag, ProblemTag, DailyProblem}
use judge.Prisma.{Prisma}
use judge.Auth.{AuthUser, Jwt, admin_required}
use judge.Judge0.{Base64, Service}
use judge.Accounts.{Bcrypt, RegisterBody, register, create_user}
use judge.Submit.{SubmitBody, Env, submit, create_submission, record_tokens, write_tokens}
use judge.Submit.Signing.{Crypto}
use judge.Callback
use judge.Callback.{
  Body, Rounding, callback, grade, write_case, recompute, recomputed, write_submission, score_after,
  update_contest_score, score_in, write_score, outcome,
}
use judge.Contests.{register_contest, add_participant}
use judge.Discussions.{CreateBody, create_discussion, create_reply, upvote}
use judge.Daily.{
  get_daily, pick, create_entry, published, daily_index, entry_for, midnight, find_entry, DailyView,
  daily_view,
}
use judge.Http.{Action, Reply, pure, gets, json, or_throw, other_error, ◌>>=◌, ◌>>◌}
use judge.Admin.{
  Fresh, ensure_tag, ensure_tags, ensured, create_children, replace_problem, delete_children,
  delete_problem, admin_create, admin_update, admin_delete,
}
use judge.Admin.Data.{ProblemData}
use judge.Server.Frames.{
  Keeps, keeps, respond-Keeps, bind-Keeps, admin_required-Keeps, modify-Keeps, if-Keeps,
}

-- The problems with all that an administrator writes for them.
abbrev pub catalogue :
    Db → List Problem × List StarterCode × List TestCase × List Tag × List ProblemTag
catalogue db = (db.problems, db.starter_codes, db.test_cases, db.tags, db.problem_tags)

abbrev pub users_of : Db → List User
users_of db = db.users

-- What only registration and the administrators write.
abbrev pub static :
    Db → (List Problem × List StarterCode × List TestCase × List Tag × List ProblemTag) × List User
static db = (catalogue db, db.users)

module _ ⦃prisma : Prisma⦄ where
  pub upvote_frame : (u : Option AuthUser) (id : String) → Keeps static (upvote u id)
  unfolding upvote
  upvote_frame u id = search (keeps, modify-Keeps)

  pub create_reply_frame :
      (u : Option AuthUser) (id new_id : String) (now : ℕ) (body : Option String)
      → Keeps static (create_reply u id new_id now body)
  unfolding create_reply
  create_reply_frame u id new_id now body = search (keeps, modify-Keeps) depth 12

  pub create_discussion_frame :
      (u : Option AuthUser) (id : String) (now : ℕ) (body : Option CreateBody)
      → Keeps static (create_discussion u id now body)
  unfolding create_discussion
  create_discussion_frame u id now body = search (keeps, modify-Keeps) depth 12

  add_participant_frame : (c u : String) (db : Db) → static (add_participant c u db) ≡ static db
  unfolding add_participant
  add_participant_frame c u db = ground arith

  pub register_contest_frame :
      (u : Option AuthUser) (slug : String) → Keeps static (register_contest u slug)
  unfolding register_contest
  register_contest_frame u slug = search (keeps, modify-Keeps, add_participant_frame) depth 12

  pub submit_frame :
      (crypto : Crypto) (env : Env) (base64 : Base64) (service : Service) (u : Option AuthUser)
      (slug : String) (body : Option SubmitBody) (id : String) (ids : ℕ → String) (now : ℕ)
      → Keeps static (submit crypto env base64 service u slug body id ids now)
  unfolding submit create_submission record_tokens write_tokens
  submit_frame crypto env base64 service u slug body id ids now =
      search (keeps, modify-Keeps) depth 30

  create_entry_frame : (e : DailyProblem) → Keeps static (create_entry e)
  unfolding create_entry
  create_entry_frame e = search (keeps, modify-Keeps)

  pick_frame : (today : ℕ) → Keeps static (pick today)
  unfolding pick
  pick_frame today = record { kept = λ db. (picked_frame today (published db)).kept db }
    where
      picked_frame :
          (today : ℕ) (all : List Problem)
          → Keeps static (
              if length all == 0 then pure none else (do
                p ← or_throw (get_elem? all (daily_index today (length all))) other_error
                create_entry (entry_for today p)
                pure (some (entry_for today p))))
      picked_frame today all = search (keeps, if-Keeps, create_entry_frame) depth 12

  -- what follows the entry of the day
  abbrev shown : Option DailyProblem → Action (Reply (Option DailyView))
  shown e = elim e [
    | none ↦ pure (json 200 none)
    | some e ↦ (do view ← gets (daily_view e); pure (json 200 view))
  ]

  pub get_daily_frame : (now : ℕ) → Keeps static (get_daily now)
  unfolding get_daily
  get_daily_frame now =
      respond-Keeps (record { kept = λ db. (shown_frame (find_entry (midnight now) db)).kept db })
    where
      view_frame : (e : Option DailyProblem) → Keeps static (shown e)
      view_frame none = search keeps
      view_frame (some e) = search keeps

      shown_frame :
          (found : Option DailyProblem)
          → Keeps static
              (do e ← elim found [ some e ↦ pure (some e) | none ↦ pick (midnight now) ]; shown e)
      shown_frame none = bind-Keeps (pick_frame (midnight now)) view_frame
      shown_frame (some e) = view_frame (some e)

  pub callback_frame :
      (crypto : Crypto) (secret : Option String) (base64 : Base64) (to_ms : Rounding)
      (q : Callback.Query) (body : Body) (now : ℕ)
      → Keeps static (callback crypto secret base64 to_ms q body now)
  unfolding callback grade outcome write_case recompute recomputed write_submission score_after
      update_contest_score score_in write_score
  callback_frame crypto secret base64 to_ms q body now = record { kept = λ db. ground arith }

  ensure_tags_users :
      (fresh : ℕ → String) (i : ℕ) (slugs : List String) (db : Db)
      → (ensure_tags fresh i slugs db).1.users ≡ db.users
  unfolding ensure_tags ensure_tag
  ensure_tags_users fresh i [] db = refl
  ensure_tags_users fresh i (slug ∷ slugs) db =
      ensure_tags_users fresh (suc i) slugs (ensure_tag (fresh i) slug db).1 ∙ ground arith

  ensured_users : (fresh : ℕ → String) (slugs : List String) → Keeps users_of (ensured fresh slugs)
  ensured_users fresh slugs = record { kept = λ db. ensure_tags_users fresh 0 slugs db }

  pub admin_create_users :
      (fresh : Fresh) (u : Option AuthUser) (id : String) (now : ℕ) (body : Option ProblemData)
      → Keeps users_of (admin_create fresh u id now body)
  unfolding admin_create create_children
  admin_create_users fresh u id now body = search (keeps, modify-Keeps, ensured_users) depth 30

  pub admin_update_users :
      (fresh : Fresh) (u : Option AuthUser) (id : String) (body : Option ProblemData)
      → Keeps users_of (admin_update fresh u id body)
  unfolding admin_update replace_problem create_children delete_children
  admin_update_users fresh u id body = search (keeps, modify-Keeps, ensured_users) depth 30

  pub admin_delete_users : (u : Option AuthUser) (id : String) → Keeps users_of (admin_delete u id)
  unfolding admin_delete delete_problem delete_children
  admin_delete_users u id = search (keeps, modify-Keeps) depth 12

  pub register_frame :
      (jwt : Jwt) (secret : Option String) (production : Bool) (bcrypt : Bcrypt)
      (is_email : String → Bool) (id salt : String) (now : ℕ) (body : Option RegisterBody)
      → Keeps catalogue (register jwt secret production bcrypt is_email id salt now body)
  unfolding register create_user
  register_frame jwt secret production bcrypt is_email id salt now body =
      search (keeps, modify-Keeps) depth 30

  pub guard_users :
      (u : Option AuthUser) → Keeps users_of (admin_required u (λ db. (json 200 tt, db)))
  guard_users u = admin_required-Keeps u (record { kept = λ db. refl })
