-- ===== src/Web/Badges.antt =====
-- What a badge tells of a status.
use judge.Base.{◌≡◌, ◌↔◌, true, false, arith}
use judge.Schema.{SubmissionStatus, pending, running, ac, wa, tle, mle, re, ce, ie}
use judge.Grader.{is_final_verdict, is_ac}
use judge.Web.Labels.{green, blue, status_colour}

-- A badge is blue exactly while there is no final verdict, and green exactly for the accepted one.
pub badge_tells :
    (v : SubmissionStatus)
    → ((status_colour v ≡ blue) ↔ (is_final_verdict v ≡ false))
      × ((status_colour v ≡ green) ↔ (is_ac v ≡ true))
unfolding status_colour is_final_verdict
badge_tells pending = ground arith
badge_tells running = ground arith
badge_tells ac = ground arith
badge_tells wa = ground arith
badge_tells tle = ground arith
badge_tells mle = ground arith
badge_tells re = ground arith
badge_tells ce = ground arith
badge_tells ie = ground arith
