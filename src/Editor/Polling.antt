-- ===== src/Editor/Polling.antt =====
-- Following a submission until it is graded.
use judge.Schema.{SubmissionStatus, pending, running, ac, wa, mle, re, ce, ie}
use judge.Grader.{is_final_verdict}
use judge.Base.{not, ap, ◌∙◌, String, ◌≡◌, &&-parts, refl, true, false, List, [], ◌∷◌, some, every}
use judge.Client.{fine, request}
use judge.Editor.{Page, poll, timer, SubmissionDetail, poll_answered, timer_fired, is_unfinished}

-- The polls of a submission: each answer that is not the last is followed by its timer.
unfoldable pub polled : String → List SubmissionDetail → SubmissionDetail → Page → Page
polled id [] last s = poll_answered id (fine 200 (some last)) [] s
polled id (d ∷ ds) last s =
    polled id ds last (timer_fired id [] (poll_answered id (fine 200 (some d)) [] s))

poll_unfinished :
    (id : String) (d : SubmissionDetail) (s : Page)
    → is_unfinished d.status ≡ true
    → poll_answered id (fine 200 (some d)) [] s
      ≡ record s { submission = some d; work = timer id ∷ [] }
unfolding poll_answered request
poll_unfinished id d s h = rw h refl

poll_finished :
    (id : String) (d : SubmissionDetail) (s : Page)
    → is_unfinished d.status ≡ false
    → poll_answered id (fine 200 (some d)) [] s
      ≡ record s { submission = some d; busy = false; work = [] }
unfolding poll_answered request
poll_finished id d s h = rw h refl

-- The page and the grader agree on what is final.
pub is_unfinished-is_final_verdict :
    (v : SubmissionStatus) → is_unfinished v ≡ not (is_final_verdict v)
unfolding is_unfinished is_final_verdict
is_unfinished-is_final_verdict pending = refl
is_unfinished-is_final_verdict running = refl
is_unfinished-is_final_verdict ac = refl
is_unfinished-is_final_verdict wa = refl
is_unfinished-is_final_verdict SubmissionStatus.tle = refl
is_unfinished-is_final_verdict mle = refl
is_unfinished-is_final_verdict re = refl
is_unfinished-is_final_verdict ce = refl
is_unfinished-is_final_verdict ie = refl

-- However many answers show a submission that the grader has not finished: when one shows a final
-- verdict, the page shows that one, is no longer busy, and asks no more; nothing else of it has
-- changed.
pub polled_settles :
    (id : String) (ds : List SubmissionDetail) (last : SubmissionDetail) (s : Page)
    → every (λ (d : SubmissionDetail). not (is_final_verdict d.status)) ds ≡ true
    → is_final_verdict last.status ≡ true
    → polled id ds last s ≡ record s { submission = some last; busy = false; work = [] }
unfolding polled timer_fired
polled_settles id [] last s h k =
    poll_finished id last s (is_unfinished-is_final_verdict last.status ∙ ap not k)
polled_settles id (d ∷ ds) last s h k =
    let (here, rest) = &&-parts _ _ h in
    rw (poll_unfinished id d s (is_unfinished-is_final_verdict d.status ∙ here))
      (polled_settles id ds last (record s { submission = some d; work = poll id ∷ [] }) rest k)
