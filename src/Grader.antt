-- ===== src/Grader.antt =====
-- platform/backend/src/lib/grader.ts
pub mod Combine
pub mod Verdicts
use judge.Base.{ℕ, Bool, true, false, List, [], ◌∷◌, foldl, leb, ◌==◌, ◌||◌, if◌then◌else◌}
use judge.Schema.{SubmissionStatus, pending, running, ac, wa, mle, re, ce, ie}

-- `J0_STATUS`: the statuses of Judge0, by the names that the source gives them
pub data J0Status : Type 0 where
  in_queue processing accepted wrong_answer tle compilation_error : J0Status
  re_sigsegv re_sigxfsz re_sigfpe re_sigabrt re_nzec re_other : J0Status
  internal_error exec_format_error : J0Status

abbrev pub j0_status : J0Status → ℕ
j0_status in_queue = 1
j0_status processing = 2
j0_status accepted = 3
j0_status wrong_answer = 4
j0_status J0Status.tle = 5
j0_status compilation_error = 6
j0_status re_sigsegv = 7
j0_status re_sigxfsz = 8
j0_status re_sigfpe = 9
j0_status re_sigabrt = 10
j0_status re_nzec = 11
j0_status re_other = 12
j0_status internal_error = 13
j0_status exec_format_error = 14

-- the labels of the `case` that answers 'RE'
is_runtime_error : ℕ → Bool
is_runtime_error id =
    id == j0_status re_sigsegv
    || id == j0_status re_sigxfsz
    || id == j0_status re_sigfpe
    || id == j0_status re_sigabrt
    || id == j0_status re_nzec
    || id == j0_status re_other
    || id == j0_status exec_format_error

unfoldable pub judge0_status_to_verdict : ℕ → SubmissionStatus
unfolding is_runtime_error
judge0_status_to_verdict id =
    if id == j0_status in_queue || id == j0_status processing
    then running
    else if id == j0_status accepted
    then ac
    else if id == j0_status wrong_answer
    then wa
    else if id == j0_status J0Status.tle
    then SubmissionStatus.tle
    else if id == j0_status compilation_error
    then ce
    else if is_runtime_error id
    then re
    else ie

abbrev pub rank : SubmissionStatus → ℕ
rank ac = 0
rank pending = 1
rank running = 2
rank wa = 3
rank SubmissionStatus.tle = 4
rank mle = 5
rank re = 6
rank ce = 7
rank ie = 8

-- the step of the `reduce`
worse : SubmissionStatus → SubmissionStatus → SubmissionStatus
worse acc v = if leb (rank acc) (rank v) then v else acc

unfoldable pub combine_verdicts : List SubmissionStatus → SubmissionStatus
unfolding worse
combine_verdicts [] = pending
combine_verdicts (v ∷ vs) = foldl worse ac (v ∷ vs)

unfoldable pub is_final_verdict : SubmissionStatus → Bool
is_final_verdict pending = false
is_final_verdict running = false
is_final_verdict ac = true
is_final_verdict _ = true

-- `s === 'AC'`
abbrev pub is_ac : SubmissionStatus → Bool
is_ac ac = true
is_ac pending = false
is_ac _ = false
