-- ===== src/Discussions/Threads.antt =====
-- What an upvote and a reply do to a thread.
use mathlib.Core.Option
use judge.Base.{
  ℕ, suc, ◌+◌, ◌≡◌, refl, ap, ◌∙◌, Bool, true, false, not, ◌&&◌, ◌||◌, String, List, [], ◌∷◌, some,
  any_of_count, Bool-cases, inl, inr, any, every, count, sum_of, str_eq, eq_iff, ◌==◌,
  if◌then◌else◌, arith,
}
use judge.Schema.{Db, Discussion}
use judge.Prisma.{Prisma}
use judge.Prisma.Rows.{
  row_laws, find_first_only, every-modify_eq, find_first-every, find_first_where, find_first_of_any,
  sum_of-modify, any-modify,
}
use judge.Http.{json, respond}
use judge.Auth.{AuthUser, auth_required}
use judge.Discussions.{
  upvote, upvoted, find_discussion, create_reply, new_reply, reply_checks, discussion_item,
  replies_of,
}

abbrev pub has_id : String → Discussion → Bool
has_id id d = str_eq d.id id

-- The votes of the discussions with an identifier.
abbrev pub votes : String → List Discussion → ℕ
votes id ds = sum_of (λ (d : Discussion). if str_eq d.id id then d.upvotes else 0) ds

votes_eq :
    (k id : String) (d : Discussion)
    → (if str_eq (if has_id id d then upvoted d else d).id k
        then (if has_id id d then upvoted d else d).upvotes
        else 0)
      ≡ (if str_eq d.id k then d.upvotes else 0)
        + (if str_eq d.id k && str_eq d.id id then 1 else 0)
votes_eq k id d = ground arith

votes-upvoted :
    (k id : String) (ds : List Discussion)
    → sum_of
        (λ (d : Discussion).
          if str_eq (if has_id id d then upvoted d else d).id k
          then (if has_id id d then upvoted d else d).upvotes
          else 0)
        ds
      ≡ votes k ds + count (λ (d : Discussion). str_eq d.id k && str_eq d.id id) ds
votes-upvoted k id [] = omega arith
votes-upvoted k id (d ∷ ds) = ground (arith, votes_eq k id d, votes-upvoted k id ds)

count_same :
    (k id : String) (ds : List Discussion)
    → str_eq k id ≡ true
    → count (λ (d : Discussion). str_eq d.id k && str_eq d.id id) ds ≡ count (has_id id) ds
count_same k id [] e = refl
count_same k id (d ∷ ds) e = ground (arith, eq_iff k id, count_same k id ds e)

count_other :
    (k id : String) (ds : List Discussion)
    → str_eq k id ≡ false
    → count (λ (d : Discussion). str_eq d.id k && str_eq d.id id) ds ≡ 0
count_other k id [] e = refl
count_other k id (d ∷ ds) e =
    ground (arith, eq_iff k id, eq_iff d.id k, eq_iff d.id id, count_other k id ds e)

count_at :
    (k id : String) (ds : List Discussion)
    → count (has_id id) ds ≡ 1
    → count (λ (d : Discussion). str_eq d.id k && str_eq d.id id) ds
      ≡ (if str_eq k id then 1 else 0)
count_at k id ds h = elim (Bool-cases (str_eq k id)) [
  | inl e ↦ rw e (count_same k id ds e ∙ h)
  | inr e ↦ rw e (count_other k id ds e)
]

abbrev pub upvote_there : ⦃p : Prisma⦄ → String → Db → Db
upvote_there ⦃p⦄ id db = record db { discussions = p.modify (has_id id) upvoted db.discussions }

module _ ⦃prisma : Prisma⦄ where
  -- The one row with the identifier, after the update.
  row-upvoted :
      (id : String) (d d' : Discussion) (db : Db)
      → find_discussion db id ≡ some d
      → count (has_id id) db.discussions ≡ 1
      → find_discussion (upvote_there id db) id ≡ some d'
      → d'.upvotes ≡ suc d.upvotes
  unfolding find_discussion
  row-upvoted id d d' db found once found' = ground (
    arith,
    find_first_where (has_id id) (prisma.modify (has_id id) upvoted db.discussions) found',
    find_first-every (has_id id) (λ r. not (has_id id r) || r.upvotes == suc d.upvotes)
        (prisma.modify (has_id id) upvoted db.discussions)
        (every-modify_eq (λ r. not (has_id id r) || r.upvotes == suc d.upvotes) (has_id id) upvoted
            db.discussions
          ∙ every_step db.discussions (
              find_first_only (has_id id) (λ r. r.upvotes == d.upvotes) db.discussions once found
              ∙ ground arith))
        found',
  )
    where
      every_step :
          (ds : List Discussion)
          → every (λ r. not (has_id id r) || r.upvotes == d.upvotes) ds ≡ true
          → every
              (λ r.
                not (has_id id (if has_id id r then upvoted r else r))
                || (if has_id id r then upvoted r else r).upvotes == suc d.upvotes)
              ds
            ≡ true
      every_step [] h = refl
      every_step (r ∷ ds) h = ground (arith, every_step ds)

  pub find_discussion-upvoted :
      (id : String) (d : Discussion) (db : Db)
      → find_discussion db id ≡ some d
      → count (has_id id) db.discussions ≡ 1
      → Option.map (λ (d : Discussion). d.upvotes) (find_discussion (upvote_there id db) id)
        ≡ some (suc d.upvotes)
  unfolding find_discussion
  find_discussion-upvoted id d db found once =
      let (d', found') =
        find_first_of_any (has_id id) (prisma.modify (has_id id) upvoted db.discussions) (
          any-modify (has_id id) (has_id id) upvoted db.discussions (λ r. refl)
          ∙ any_of_count (has_id id) db.discussions (omega (arith, once))) in
      ap (Option.map (λ (d : Discussion). d.upvotes)) found'
      ∙ ap some (row-upvoted id d d' db found once found')

  upvote_run :
      (u : AuthUser) (id : String) (db : Db)
      → any (has_id id) db.discussions ≡ true
      → upvote (some u) id db ≡ (
        json 200
            (Option.map (λ (d : Discussion). d.upvotes) (find_discussion (upvote_there id db) id)),
        upvote_there id db,
      )
  unfolding upvote auth_required respond
  upvote_run u id db h = ground (arith, h)

  -- An upvote of a discussion that is there once answers its votes and one more, adds that vote to
  -- the discussion, and leaves the votes of any other discussion as they were.
  pub upvote_counts :
      (u : AuthUser) (id : String) (d : Discussion) (db : Db)
      → find_discussion db id ≡ some d
      → count (has_id id) db.discussions ≡ 1
      → (k : String)
      → (upvote (some u) id db ≡ (json 200 (some (suc d.upvotes)), upvote_there id db))
        × (votes k (upvote (some u) id db).1.discussions
            ≡ votes k db.discussions + (if str_eq k id then 1 else 0))
  upvote_counts u id d db found once k = (
    run ∙ ap (λ n. (json 200 n, upvote_there id db)) (find_discussion-upvoted id d db found once),
    ap (λ done. votes k done.1.discussions) run
        ∙ sum_of-modify (λ (d : Discussion). if str_eq d.id k then d.upvotes else 0) (has_id id)
            upvoted db.discussions
        ∙ votes-upvoted k id db.discussions
        ∙ ap (λ n. votes k db.discussions + n) (count_at k id db.discussions once),
  )
    where
      run : upvote (some u) id db ≡ (
        json 200
            (Option.map (λ (d : Discussion). d.upvotes) (find_discussion (upvote_there id db) id)),
        upvote_there id db,
      )
      run = upvote_run u id db (any_of_count (has_id id) db.discussions (omega (arith, once)))

  pub create_reply_run :
      (u : AuthUser) (d : Discussion) (id body : String) (now : ℕ) (db : Db)
      → find_discussion db d.id ≡ some d
      → reply_checks body ≡ true
      → create_reply (some u) d.id id now (some body) db ≡ (
        json 201 (new_reply id now u d body),
        record db {
          discussion_replies = prisma.insert (new_reply id now u d body) db.discussion_replies;
        },
      )
  unfolding create_reply auth_required respond
  create_reply_run u d id body now db found valid = ground (arith, valid, found)

  -- A reply to a discussion that is there, with a text that fits the schema, raises the number of
  -- replies that the list shows for the discussion by one, and that of no other discussion.
  pub create_reply_counted :
      (u : AuthUser) (d : Discussion) (id body : String) (now : ℕ) (db : Db)
      → find_discussion db d.id ≡ some d
      → reply_checks body ≡ true
      → (k : Discussion)
      → (discussion_item (create_reply (some u) d.id id now (some body) db).1 k).reply_count
        ≡ (if str_eq d.id k.id then 1 else 0) + (discussion_item db k).reply_count
  unfolding discussion_item replies_of new_reply
  create_reply_counted u d id body now db found valid k =
      rw (create_reply_run u d id body now db found valid) (simp row_laws)
