-- ===== src/Submissions/Recent.antt =====
-- The list of submissions, GET /.
use judge.Base.{
  ◌≡◌, refl, true, List, not, ◌||◌, every, filter, every-take, every-perm, map, some, IsOrder,
  IsTop, falling-IsOrder, str_eq, arith, every_both,
}
use judge.Schema.{Db, Submission}
use judge.Prisma.{Prisma}
use judge.Prisma.Rows.{find_many-IsTop, every-find_many_where}
use judge.Http.{json, respond}
use judge.Auth.{AuthUser, auth_required}
use judge.Submissions.{
  ListQuery, list_where, recent_submissions, list_submissions, submission_item, newest_first,
  mine_only,
}

pub newest_first-IsOrder : IsOrder newest_first
newest_first-IsOrder = falling-IsOrder (λ (s : Submission). s.created_at)

module _ ⦃prisma : Prisma⦄ where
  recent_own :
      (u : AuthUser) (q : ListQuery) (db : Db) (s : Submission)
      → list_where u q db s ≡ true
      → (not (mine_only q.mine) || str_eq s.user_id u.id) ≡ true
  unfolding list_where
  recent_own u q db s h = ground arith

  every_recent :
      (u : AuthUser) (q : ListQuery) (db : Db)
      → every
          (λ (s : Submission). not (mine_only q.mine) || str_eq s.user_id u.id)
          (recent_submissions u q db)
        ≡ true
  unfolding recent_submissions
  every_recent u q db =
      every-take _ 50
        (prisma.order_by newest_first (prisma.find_many (list_where u q db) db.submissions))
        (rw
          (every-perm (λ (s : Submission). not (mine_only q.mine) || str_eq s.user_id u.id)
            (prisma.order_by_perm newest_first
              (prisma.find_many (list_where u q db) db.submissions)))
          (every_both (list_where u q db) (list_where u q db) _ (λ s h k. recent_own u q db s h)
            (prisma.find_many (list_where u q db) db.submissions)
            (every-find_many_where (list_where u q db) db.submissions)
            (every-find_many_where (list_where u q db) db.submissions)))

  -- A signed-in user's list of submissions is a page of those that fit the query: the newest 50,
  -- newest first, and with `mine=true` all of them are the user's own.
  pub list_submissions_newest :
      (u : AuthUser) (q : ListQuery) (db : Db)
      → (found : List Submission) × (list_submissions (some u) q db
          ≡ (json 200 (map (submission_item db) found), db))
        × IsTop newest_first 50 (filter (list_where u q db) db.submissions) found
        × (every (λ (s : Submission). not (mine_only q.mine) || str_eq s.user_id u.id) found ≡ true)
  unfolding list_submissions recent_submissions auth_required respond
  list_submissions_newest u q db = (
    recent_submissions u q db,
    refl,
    find_many-IsTop newest_first 50 (list_where u q db) db.submissions newest_first-IsOrder,
    every_recent u q db,
  )
