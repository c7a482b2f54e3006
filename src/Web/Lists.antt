-- ===== src/Web/Lists.antt =====
-- The pages and tabs that load one list and show it: what each asks for, and the rows that it has
-- once the answer is there.
use judge.Base.{String, List, Option, none, some}
use judge.Submissions.{ListQuery, SubmissionItem}
use judge.Discussions.{DiscussionItem}
use judge.Contests.{ContestItem}
use judge.Leaderboard.{Ranked}
use judge.Users.{Profile}
use judge.Client.{Fetched, received, api_error, failed, request}
use judge.Web.Wire.{list_answered}

-- app/submissions/page.tsx: `?mine=true`
unfoldable pub own_query : ListQuery
own_query = record { problem = none; mine = some "true" }

unfoldable pub own_submissions : Fetched (List SubmissionItem) → List SubmissionItem
unfolding list_answered
own_submissions r = list_answered r

-- the tab of a problem: `?problem=${slug}&mine=true`
unfoldable pub tab_query : String → ListQuery
tab_query slug = record { problem = some slug; mine = some "true" }

unfoldable pub tab_submissions : Fetched (List SubmissionItem) → List SubmissionItem
unfolding list_answered
tab_submissions r = list_answered r

-- app/discussions/page.tsx asks for all, the tab of a problem for `?problem=${slug}`.
unfoldable pub all_threads : Fetched (List DiscussionItem) → List DiscussionItem
unfolding list_answered
all_threads r = list_answered r

unfoldable pub tab_threads : Fetched (List DiscussionItem) → List DiscussionItem
unfolding list_answered
tab_threads r = list_answered r

-- app/contests/page.tsx
unfoldable pub contests_shown : Fetched (List ContestItem) → List ContestItem
unfolding list_answered
contests_shown r = list_answered r

-- app/leaderboard/page.tsx
unfoldable pub leaders_shown : Fetched (List Ranked) → List Ranked
unfolding list_answered
leaders_shown r = list_answered r

-- app/users/[username]/page.tsx: without a profile the page stays at "Loading…".
unfoldable pub profile_shown : Fetched Profile → Option Profile
profile_shown r = elim (request r) [ received v ↦ v | api_error status text ↦ none | failed ↦ none ]
