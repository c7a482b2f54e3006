-- ===== src/Web/OwnLists.antt =====
-- The two lists of a visitor's own submissions, with the server behind them.
use judge.Base.{◌≡◌, refl, String, List, [], map, every, filter, some, none, str_eq, true, IsTop}
use judge.Schema.{Db, Submission}
use judge.Prisma.{Prisma}
use judge.Auth.{AuthUser, auth_required}
use judge.Submissions.{list_submissions, submission_item, list_where, newest_first}
use judge.Submissions.Recent.{list_submissions_newest}
use judge.Client.{request}
use judge.Web.Wire.{fetched}
use judge.Web.Lists.{own_query, own_submissions, tab_query, tab_submissions}

module _ ⦃prisma : Prisma⦄ where
  -- Without a session both lists are empty.
  pub no_session :
      (slug : String) (db : Db)
      → (own_submissions (fetched (list_submissions none own_query db).0) ≡ [])
        × (tab_submissions (fetched (list_submissions none (tab_query slug) db).0) ≡ [])
  unfolding own_submissions tab_submissions fetched request list_submissions auth_required
  no_session slug db = (refl, refl)

  -- For a signed-in user both lists have the user's own submissions and no other: the page the newest
  -- 50 of all, the tab of a problem the newest 50 of those to the problem.
  pub lists_own :
      (u : AuthUser) (slug : String) (db : Db)
      → ((found : List Submission) × (own_submissions
              (fetched (list_submissions (some u) own_query db).0)
            ≡ map (submission_item db) found)
          × IsTop newest_first 50 (filter (list_where u own_query db) db.submissions) found
          × (every (λ (s : Submission). str_eq s.user_id u.id) found ≡ true))
        × ((found : List Submission) × (tab_submissions
                (fetched (list_submissions (some u) (tab_query slug) db).0)
              ≡ map (submission_item db) found)
            × IsTop newest_first 50 (filter (list_where u (tab_query slug) db) db.submissions) found
            × (every (λ (s : Submission). str_eq s.user_id u.id) found ≡ true))
  unfolding own_submissions tab_submissions fetched request own_query tab_query
  lists_own u slug db =
      let (found, run, top, own) = list_submissions_newest u own_query db in
      let (found', run', top', own') = list_submissions_newest u (tab_query slug) db in
      ((found, rw run refl, top, own), (found', rw run' refl, top', own'))
