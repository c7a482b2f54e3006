-- ===== src/Web/Graded.antt =====
-- A submit on the page of a problem, from the click to the verdict on the screen.
use judge.Base.{◌≡◌, ap, String, true, false, not, List, [], some, every, map}
use judge.Grader.{is_final_verdict}
use judge.Client.{fine, request}
use judge.Editor.{Page, SubmissionDetail, on_submit, submit_answered}
use judge.Editor.Polling.{polled, polled_settles}
use judge.Web.Screen.{submission_lines, result_panel, detail_summary, case_line}

-- Submit is clicked, the server answers with the submission's id, and the polls follow.
abbrev pub submitted : String → List SubmissionDetail → SubmissionDetail → Page → Page
submitted id ds last s = polled id ds last (submit_answered (fine 202 (some id)) [] (on_submit s))

-- However many answers show a submission that the grader has not finished: when one shows a final
-- verdict, the page waits for nothing and is not busy, its panel shows the verdict, the counts and
-- the cases of that answer, and the program, the language and the drafts are as before.
pub submitted_shown :
    (id : String) (ds : List SubmissionDetail) (last : SubmissionDetail) (s : Page)
    → every (λ (d : SubmissionDetail). not (is_final_verdict d.status)) ds ≡ true
    → is_final_verdict last.status ≡ true
    → let t = submitted id ds last s in
      (t ≡ record (on_submit s) { submission = some last; busy = false; work = [] })
      × (result_panel t ≡ submission_lines (detail_summary last) (map case_line last.cases))
unfolding submit_answered request on_submit result_panel
submitted_shown id ds last s h k =
    let run =
      polled_settles id ds last (submit_answered (fine 202 (some id)) [] (on_submit s)) h k in
    (run, ap result_panel run)
