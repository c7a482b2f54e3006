-- ===== src/Web/Replying.antt =====
-- A reply from the page of a discussion, with the server behind it.
use judge.Base.{
  ℕ, suc, ◌≡◌, refl, ◌∙◌, String, true, false, Option, none, some, ◌+◌, ◌&&◌, Bool, count,
  count-map, count-perm, Option-cases, inl, inr, str_eq, eq_iff, arith, if◌then◌else◌,
}
use judge.Text.{min_length, max_length, utf16_length}
use judge.Text.Parts.{is_empty, trim, trim_start, trim_end}
use judge.Schema.{Db, Discussion, DiscussionReply}
use judge.Prisma.{Prisma}
use judge.Prisma.Rows.{count-insert, count-find_many}
use judge.Http.{json, respond}
use judge.Auth.{AuthUser}
use judge.Discussions.{
  create_reply, upvote, get_discussion, find_discussion, discussion_view, reply_checks, new_reply,
  ReplyView, replies_of, oldest_first,
}
use judge.Discussions.Threads.{
  create_reply_run, upvote_there, upvote_counts, find_discussion-upvoted, has_id,
}
use judge.Client.{request}
use judge.Web.Wire.{fetched}
use judge.Web.Thread.{ThreadPage, thread_loaded, reply_body, went_through, reply_sent}

module _ ⦃prisma : Prisma⦄ where
  -- `postReply`: the reply is sent, and then the thread is loaded again.
  unfoldable pub post_reply :
      Option AuthUser → String → String → ℕ → ThreadPage → Db → ThreadPage × Db
  unfolding reply_body went_through reply_sent thread_loaded fetched
  post_reply user id reply_id now s db = elim (reply_body s) [
    | none ↦ (s, db)
    | some body ↦
        let (r, db') = create_reply user id reply_id now (some body) db in
        if went_through (fetched r)
        then (thread_loaded (fetched (get_discussion id db').0) (reply_sent s), db')
        else (s, db')
  ]

  -- `upvote`
  unfoldable pub post_vote : Option AuthUser → String → ThreadPage → Db → ThreadPage × Db
  unfolding went_through thread_loaded fetched
  post_vote user id s db =
      let (r, db') = upvote user id db in
      if went_through (fetched r)
      then (thread_loaded (fetched (get_discussion id db').0) s, db')
      else (s, db')

not_blank : (s : String) → is_empty (trim s) ≡ false → min_length 1 s ≡ true
unfolding trim trim_start trim_end min_length utf16_length
not_blank String.[] h = ground arith
not_blank (String.◌∷◌ c s) h = ground arith

module _ ⦃prisma : Prisma⦄ where
  replies_counted :
      (d : Discussion) (db : Db) (q : DiscussionReply → Bool)
      → count (λ (v : ReplyView). q v.reply) (discussion_view d db).replies
        ≡ count (λ (r : DiscussionReply). str_eq r.discussion_id d.id && q r) db.discussion_replies
  unfolding discussion_view replies_of
  replies_counted d db q =
      count-map _ _ _
      ∙ count-perm q (prisma.order_by_perm oldest_first _)
      ∙ count-find_many _ q db.discussion_replies

  get_discussion_found :
      (d : Discussion) (id : String) (db : Db)
      → find_discussion db id ≡ some d
      → get_discussion id db ≡ (json 200 (discussion_view d db), db)
  unfolding get_discussion respond
  get_discussion_found d id db found = ground (arith, found)

  abbrev replied : String → ℕ → AuthUser → Discussion → String → Db → Db
  replied id now u d body db = record db {
    discussion_replies = prisma.insert (new_reply id now u d body) db.discussion_replies;
  }

  reply_body_full : (s : ThreadPage) → is_empty (trim s.reply) ≡ false → reply_body s ≡ some s.reply
  unfolding reply_body
  reply_body_full s full = ground (arith, full)

  post_reply_run :
      (u : AuthUser) (d : Discussion) (reply_id : String) (now : ℕ) (s : ThreadPage) (db : Db)
      → find_discussion db d.id ≡ some d
      → is_empty (trim s.reply) ≡ false
      → reply_checks s.reply ≡ true
      → let db' = replied reply_id now u d s.reply db in
        post_reply (some u) d.id reply_id now s db
        ≡ (record { thread = some (discussion_view d db'); reply = "" }, db')
  unfolding post_reply request find_discussion
  post_reply_run u d reply_id now s db found full valid =
      let db' : Db = replied reply_id now u d s.reply db in
      ground (
        arith,
        reply_body_full s full,
        create_reply_run u d reply_id s.reply now db found valid,
        get_discussion_found d d.id db' found,
      )

  -- A signed-in user's reply on the page of a discussion that is there, a text that is not blank and
  -- has at most 20,000 units, goes through: the input is emptied, the reply is stored with that text,
  -- user, discussion and time beside the earlier ones, and the page shows the discussion as it now is
  -- in the database, with that reply beside those it had: as many fulfil any test, counting it.
  pub post_reply_shown :
      (u : AuthUser) (d : Discussion) (reply_id : String) (now : ℕ) (s : ThreadPage) (db : Db)
      → (q : DiscussionReply → Bool) → find_discussion db d.id ≡ some d
      → is_empty (trim s.reply) ≡ false
      → max_length 20000 s.reply ≡ true
      → let (t, db') = post_reply (some u) d.id reply_id now s db in
        let one : ℕ =
          if q (record {
            id = reply_id;
            discussion_id = d.id;
            user_id = u.id;
            body_md = s.reply;
            created_at = now;
          })
          then 1
          else 0 in
        (t ≡ record { thread = some (discussion_view d db'); reply = "" })
        × (count q db'.discussion_replies ≡ one + count q db.discussion_replies)
        × (count (λ (v : ReplyView). q v.reply) (discussion_view d db').replies
            ≡ one + count (λ (v : ReplyView). q v.reply) (discussion_view d db).replies)
  unfolding reply_checks new_reply
  post_reply_shown u d reply_id now s db q found full short =
      let r = new_reply reply_id now u d s.reply in
      let db' : Db = replied reply_id now u d s.reply db in
      let run =
        post_reply_run u d reply_id now s db found full
          (checks s.reply (not_blank s.reply full) short) in
      rw run (
        refl,
        count-insert q r db.discussion_replies,
        replies_counted d db' q
            ∙ count-insert (λ (r : DiscussionReply). str_eq r.discussion_id d.id && q r) r
                db.discussion_replies
            ∙ ground (arith, new_reply, eq_iff d.id d.id, replies_counted d db q),
      )
    where
      checks :
          (body : String)
          → min_length 1 body ≡ true
          → max_length 20000 body ≡ true
          → reply_checks body ≡ true
      checks body a b = ground (arith, a, b)

  -- A signed-in user's vote for a discussion that is there once goes through, and the page shows the
  -- discussion with one vote more.
  pub post_vote_shown :
      (u : AuthUser) (d : Discussion) (s : ThreadPage) (db : Db)
      → find_discussion db d.id ≡ some d
      → count (has_id d.id) db.discussions ≡ 1
      → let db' = upvote_there d.id db in
        (e : Discussion) × (e.upvotes ≡ suc d.upvotes)
        × (post_vote (some u) d.id s db ≡ (record s { thread = some (discussion_view e db') }, db'))
  unfolding post_vote request
  post_vote_shown u d s db found once =
      elim (Option-cases (find_discussion (upvote_there d.id db) d.id)) [
        | inl gone ↦ absurd (ground (arith, gone, find_discussion-upvoted d.id d db found once))
        | inr (e, there) ↦ (
          e,
          ground (arith, there, find_discussion-upvoted d.id d db found once),
          ground (
            arith,
            (upvote_counts u d.id d db found once d.id).0,
            get_discussion_found e d.id (upvote_there d.id db) there,
          ),
        )
      ]
