-- ===== src/Tests/Web.antt =====
-- The pages with the server behind them.
use judge.Base.{
  ◌≡◌, ◌≢◌, ◌↔◌, refl, ◌+◌, ◌*◌, ◌≤◌, String, Bool, true, false, List, [], ◌∷◌, none, some, map,
  any, count, length, str_eq, arith, eq_iff, sort,
}
use judge.Prisma.Memory.{memory}
use judge.Http.{status}
use judge.Problems.{ListQuery, ProblemItem}
use judge.Discussions.{ReplyView, discussion_view, find_discussion}
use judge.Schema.{DiscussionReply}
use judge.Text.{max_length}
use judge.Text.Parts.{trim, trim_start, trim_end, is_space}
use judge.Admin.{ProblemCounts, admin_list, admin_delete}
use judge.Grader.{is_final_verdict}
use judge.Client.{Fetched, fine, unreachable}
use judge.Editor.{on_submit}
use judge.Web.Wire.{fetched, list_answered}
use judge.Web.Me.{links}
use judge.Web.AdminList.{Gate, gate, AdminHome, del, del_answered}
use judge.Web.Gate.{hook_of, is_admin_link, hook_agrees}
use judge.Web.Deleting.{page_of, listed, delete_agrees, overlapping_deletes}
use judge.Web.ProblemList.{
  Filters, ListPage, opened, query_of, same_filters, set_filters, items_answered,
}
use judge.Web.Races
use judge.Web.Races.{settled_current, late_answer_wins}
use judge.Web.SubmissionPage.{Viewer, Task, visit, leave, answered}
use judge.Web.Following.{Steps, Step, ShowsOwn, is_current, viewer-ShowsOwn, left_stops}
use judge.Web.Screen.{submission_lines, result_panel, detail_summary, case_line}
use judge.Web.Graded.{submitted, submitted_shown}
use judge.Web.Thread.{ThreadPage}
use judge.Web.Replying.{post_reply, post_reply_shown}
use judge.Tests.Frontend.{page, graded, half_graded}
use judge.Tests.World.{db, alice, root, question}

hook_agrees_example :
    ((hook_of (some root) db).me ≡ some root)
    × ((gate (hook_of (some root) db) ≡ Gate.load)
        ↔ (status (admin_list ⦃prisma = memory⦄ (some root) db).0 ≡ 200))
    × ((any is_admin_link (links (hook_of (some root) db)) ≡ true)
        ↔ (status (admin_list ⦃prisma = memory⦄ (some root) db).0 ≡ 200))
hook_agrees_example = hook_agrees ⦃prisma = memory⦄ (some root) db

abbrev has_tests : ProblemCounts → Bool
has_tests p = true

delete_agrees_example :
    let (r, db') = admin_delete ⦃prisma = memory⦄ (some root) "p1" db in
    count has_tests
      (del_answered
        (fetched r)
        (del "p1" (page_of ⦃prisma = memory⦄ root refl db))
        (page_of ⦃prisma = memory⦄ root refl db)).items
    ≡ count has_tests (page_of ⦃prisma = memory⦄ root refl db').items
delete_agrees_example = delete_agrees ⦃prisma = memory⦄ root refl "p1" db has_tests refl

abbrev home : AdminHome
home = record { items = listed ⦃prisma = memory⦄ db; error = none }

two_problems : ◌≢◌ {A = String} "p1" "p2"
two_problems = ground (arith, eq_iff "p1" "p2")

overlapping_deletes_example :
    any
      (λ (p : ProblemCounts). str_eq p.problem.id "p1")
      (del_answered
        (fine 200 (some tt))
        (del "p2" home)
        (del_answered (fine 200 (some tt)) (del "p1" home) home)).items
    ≡ true
unfolding memory sort
overlapping_deletes_example = overlapping_deletes "p1" "p2" home two_problems refl

abbrev server : ListQuery → Fetched (List ProblemItem)
server q = fine 200 (some [])

abbrev easy_only : Filters
easy_only = record { search = ""; difficulty = "easy"; tag = "" }

abbrev math_only : Filters
math_only = record { search = ""; difficulty = ""; tag = "math" }

abbrev idle : ListPage
idle = items_answered (server (query_of opened.filters)) [] opened

in_order : Races.Reach server opened idle
unfolding opened
in_order =
    Races.Reach.next Races.Reach.here (Races.Step.answer opened (query_of opened.filters) [] refl)

settled_current_example : idle.items ≡ list_answered (server (query_of idle.filters))
unfolding items_answered
settled_current_example = settled_current server in_order refl

late_answer_wins_example :
    let t = set_filters math_only (set_filters easy_only idle) in
    let late =
      items_answered
        (server (query_of easy_only))
        []
        (items_answered (server (query_of math_only)) (query_of easy_only ∷ []) t) in
    (t.waiting ≡ query_of easy_only ∷ query_of math_only ∷ [])
    × (late.waiting ≡ [])
    × (late.filters ≡ math_only)
    × (late.items ≡ list_answered (server (query_of easy_only)))
unfolding items_answered opened same_filters
late_answer_wins_example = late_answer_wins server easy_only math_only idle refl refl refl

abbrev first_task : Task
first_task = record { run = 0; id = "s1"; is_timer = false }

abbrev polling : Viewer
polling = answered first_task (fine 200 (some half_graded)) [] (visit "s1")

polled_once : Steps (visit "s1") 1 polling
unfolding visit
polled_once =
    Steps.one_more Steps.none_yet
      (Step.request_ends (visit "s1") [] [] first_task (fine 200 (some half_graded)) refl refl)

viewer-ShowsOwn_example :
    (count (is_current (visit "s1")) (visit "s1").tasks ≤ 1)
    × ShowsOwn (visit "s1") first_task (answered first_task unreachable [] (visit "s1"))
unfolding visit
viewer-ShowsOwn_example = viewer-ShowsOwn "s1" Steps.none_yet [] [] first_task unreachable refl

abbrev left : Viewer
left = leave (visit "s1")

left_ended : Steps left 1 (answered first_task (fine 200 (some half_graded)) [] left)
unfolding visit leave
left_ended =
    Steps.one_more Steps.none_yet
      (Step.request_ends left [] [] first_task (fine 200 (some half_graded)) refl refl)

left_stops_example : 1 ≤ 2 * length left.tasks
unfolding leave
left_stops_example = left_stops left_ended refl

submitted_shown_example :
    let t = submitted "s1" (half_graded ∷ half_graded ∷ []) graded page in
    (t ≡ record (on_submit page) { submission = some graded; busy = false; work = [] })
    × (result_panel t ≡ submission_lines (detail_summary graded) (map case_line graded.cases))
unfolding is_final_verdict
submitted_shown_example =
    submitted_shown "s1" (half_graded ∷ half_graded ∷ []) graded page refl refl

abbrev thread_page : ThreadPage
thread_page = record { thread = none; reply = "like this" }

-- whether a reply is that of the page
abbrev said : DiscussionReply → Bool
said r = str_eq r.body_md thread_page.reply

post_reply_shown_example :
    let (t, db') = post_reply ⦃prisma = memory⦄ (some alice) "d1" "r1" 500 thread_page db in
    (t ≡ record { thread = some (discussion_view ⦃prisma = memory⦄ question db'); reply = "" })
    × (count said db'.discussion_replies ≡ 1 + count said db.discussion_replies)
    × (count
          (λ (v : ReplyView). said v.reply)
          (discussion_view ⦃prisma = memory⦄ question db').replies
        ≡ 1
          + count
              (λ (v : ReplyView). said v.reply)
              (discussion_view ⦃prisma = memory⦄ question db).replies)
unfolding find_discussion memory max_length trim trim_start trim_end is_space
post_reply_shown_example =
    post_reply_shown ⦃prisma = memory⦄ alice question "r1" 500 thread_page db said refl refl refl
