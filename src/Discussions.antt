-- ===== src/Discussions.antt =====
-- platform/backend/src/routes/discussions.ts
pub mod Threads
use judge.Base.{
  ℕ, suc, String, Bool, true, false, not, ◌&&◌, ◌||◌, List, Option, none, some, map, take, any,
  length, str_eq, leb, if◌then◌else◌, truthy,
}
use mathlib.Core.Option
use judge.Text.{min_length, max_length}
use judge.Schema.{Db, User, Problem, Discussion, DiscussionReply}
use judge.Prisma.{Prisma, find_first}
use judge.Http.{
  Reply, json, http_error, other_error, Action, pure, gets, or_throw, zod_parse, throw_if, modify,
  respond, ◌>>=◌, ◌>>◌,
}
use judge.Auth.{AuthUser, auth_required}
use judge.Submissions.{ProblemRef, problem_ref}

pub record DiscussionItem : Type 0 where
  pub discussion : Discussion
  pub username : Option String
  pub problem : Option ProblemRef
  pub reply_count : ℕ

pub record ReplyView : Type 0 where
  pub reply : DiscussionReply
  pub username : Option String

pub record DiscussionView : Type 0 where
  pub discussion : Discussion
  pub username : Option String
  pub problem : Option ProblemRef
  pub replies : List ReplyView

pub record CreateBody : Type 0 where
  pub problem_slug : String
  pub title : String
  pub body_md : String

-- `createSchema`
unfoldable pub create_checks : CreateBody → Bool
create_checks b =
    min_length 1 b.problem_slug
    && min_length 3 b.title
    && max_length 200 b.title
    && min_length 1 b.body_md
    && max_length 20000 b.body_md

-- `replySchema`
unfoldable pub reply_checks : String → Bool
reply_checks body_md = min_length 1 body_md && max_length 20000 body_md

abbrev pub newest_first : Discussion → Discussion → Bool
newest_first d e = leb e.created_at d.created_at

abbrev pub oldest_first : DiscussionReply → DiscussionReply → Bool
oldest_first r s = leb r.created_at s.created_at

-- `slug ? { problem: { slug } } : {}`
unfoldable pub discussion_where : Option String → Db → Discussion → Bool
discussion_where q db d = elim (truthy q) [
  | none ↦ true
  | some slug ↦ any (λ (p : Problem). str_eq p.id d.problem_id && str_eq p.slug slug) db.problems
]

-- `{ upvotes: { increment: 1 } }`
abbrev pub upvoted : Discussion → Discussion
upvoted d = record d { upvotes = suc d.upvotes }

module _ ⦃prisma : Prisma⦄ where
  unfoldable pub username_of : Db → String → Option String
  username_of db id =
      Option.map (λ (u : User). u.username) (find_first (λ (u : User). str_eq u.id id) db.users)

  unfoldable pub replies_of : Db → Discussion → List DiscussionReply
  replies_of db d =
      prisma.find_many (λ (r : DiscussionReply). str_eq r.discussion_id d.id) db.discussion_replies

  unfoldable pub discussion_item : Db → Discussion → DiscussionItem
  unfolding username_of replies_of
  discussion_item db d = record {
    discussion = d;
    username = username_of db d.user_id;
    problem = problem_ref db d.problem_id;
    reply_count = length (replies_of db d);
  }

  -- GET /
  unfoldable pub list_discussions : Option String → Db → Reply (List DiscussionItem) × Db
  unfolding discussion_where discussion_item
  list_discussions q = respond do
    items ← gets (λ db.
        take 50
          (prisma.order_by newest_first (prisma.find_many (discussion_where q db) db.discussions)))
    views ← gets (λ db. map (discussion_item db) items)
    pure (json 200 views)

  unfoldable pub find_discussion : Db → String → Option Discussion
  find_discussion db id = find_first (λ (d : Discussion). str_eq d.id id) db.discussions

  unfoldable pub discussion_view : Discussion → Db → DiscussionView
  unfolding username_of replies_of
  discussion_view d db = record {
    discussion = d;
    username = username_of db d.user_id;
    problem = problem_ref db d.problem_id;
    replies =
        map (λ (r : DiscussionReply). record { reply = r; username = username_of db r.user_id })
          (prisma.order_by oldest_first (replies_of db d));
  }

  -- GET /:id
  unfoldable pub get_discussion : String → Db → Reply DiscussionView × Db
  unfolding discussion_view
  get_discussion id = respond do
    d ← or_throw (← gets (λ db. find_discussion db id)) (http_error 404 "discussion not found")
    view ← gets (discussion_view d)
    pure (json 200 view)

  unfoldable pub new_discussion : String → ℕ → AuthUser → Problem → CreateBody → Discussion
  new_discussion id now u p b = record {
    id = id;
    problem_id = p.id;
    user_id = u.id;
    title = b.title;
    body_md = b.body_md;
    upvotes = 0;
    created_at = now;
  }

  -- POST /
  unfoldable pub create_discussion :
      Option AuthUser → String → ℕ → Option CreateBody → Db → Reply Discussion × Db
  unfolding create_checks new_discussion
  create_discussion user id now body = auth_required user λ u. respond do
    b ← zod_parse create_checks body
    p ←
        or_throw
          (← gets (λ db. find_first (λ (p : Problem). str_eq p.slug b.problem_slug) db.problems))
          (http_error 404 "problem not found")
    modify (λ db. record db {
      discussions = prisma.insert (new_discussion id now u p b) db.discussions;
    })
    pure (json 201 (new_discussion id now u p b))

  unfoldable pub new_reply : String → ℕ → AuthUser → Discussion → String → DiscussionReply
  new_reply id now u d body_md = record {
    id = id;
    discussion_id = d.id;
    user_id = u.id;
    body_md = body_md;
    created_at = now;
  }

  -- POST /:id/replies
  unfoldable pub create_reply :
      Option AuthUser → String → String → ℕ → Option String → Db → Reply DiscussionReply × Db
  unfolding reply_checks new_reply
  create_reply user discussion_id id now body = auth_required user λ u. respond do
    body_md ← zod_parse reply_checks body
    d ←
        or_throw (← gets (λ db. find_discussion db discussion_id))
          (http_error 404 "discussion not found")
    modify (λ db. record db {
      discussion_replies = prisma.insert (new_reply id now u d body_md) db.discussion_replies;
    })
    pure (json 201 (new_reply id now u d body_md))

  -- POST /:id/upvote: the update throws where there is no such row.
  unfoldable pub upvote : Option AuthUser → String → Db → Reply (Option ℕ) × Db
  upvote user id = auth_required user λ u. respond do
    missing ← gets (λ db. not (any (λ (d : Discussion). str_eq d.id id) db.discussions))
    throw_if missing other_error
    modify (λ db. record db {
      discussions = prisma.modify (λ (d : Discussion). str_eq d.id id) upvoted db.discussions;
    })
    d ← gets (λ db. find_discussion db id)
    pure (json 200 (Option.map (λ (d : Discussion). d.upvotes) d))
