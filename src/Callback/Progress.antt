-- ===== src/Callback/Progress.antt =====
-- Callbacks that run at once come to an end, whatever the order of their steps.
use judge.Base.{
  ℕ, zero, suc, ◌+◌, ◌*◌, ◌≡◌, refl, ◌∙◌, ◌⊎◌, inl, inr, subst, sym, ap, String, Bool, true, List,
  [], ◌∷◌, ◌++◌, map, any, every, length, sum_of, str_eq, arith, All, All-without, All-with,
}
use judge.Schema.{Db, Submission, SubmissionCase}
use judge.Prisma.{Prisma}
use judge.Prisma.Rows.{any-modify, find_first_of_any}
use judge.Judge0.{Base64}
use judge.Callback.{
  Body, Rounding, is_case, write_case, graded_case, recomputed, cases_of_submission, settle,
}
use judge.Callback.Graded.{submission_cases-recomputed, submissions-recomputed}
use judge.Grader.{is_final_verdict}
use judge.Callback.Delivery.{IsKeyed, verdict}
use judge.Callback.Settled.{HasCase, tests_of, covered}
use judge.Callback.Kept.{has_combined}
use judge.Callback.Ended.{steps_of, Step_counted, Steps_counted, all_arrived}
use judge.Callback.Race.{
  Job, arrived, stored, looked, Race, Step, Steps, store, look, finish, none_yet, one_more,
}
use judge.Callback.Interleaved.{start, is_open, interleaved_settles}

abbrev pub is_row : String → Submission → Bool
is_row id s = str_eq s.id id

-- A callback that has arrived finds the row of its test case.
abbrev pub IsReady : String → Db → Job → Type 0
IsReady id db (arrived t) = HasCase id db t
IsReady id db (stored t) = Unit
IsReady id db (looked cases) = Unit

module _ (id : String) where
  All-IsReady :
      (d e : Db) (jobs : List Job)
      → ((t : String) → HasCase id d t → HasCase id e t)
      → All (IsReady id d) jobs
      → All (IsReady id e) jobs
  All-IsReady d e [] f h = tt
  All-IsReady d e (arrived t ∷ jobs) f (h, hs) = (f t h, All-IsReady d e jobs f hs)
  All-IsReady d e (stored t ∷ jobs) f (h, hs) = (tt, All-IsReady d e jobs f hs)
  All-IsReady d e (looked cases ∷ jobs) f (h, hs) = (tt, All-IsReady d e jobs f hs)

  start-IsReady :
      (db : Db) (ts : List String) → All (HasCase id db) ts → All (IsReady id db) (map arrived ts)
  start-IsReady db [] h = tt
  start-IsReady db (t ∷ ts) (h, hs) = (h, start-IsReady db ts hs)

  module _ (key : String → String) (results : String → Body) ⦃prisma : Prisma⦄ (base64 : Base64)
      (to_ms : Rounding) where
    HasCase-write_case :
        (t u : String) (c : SubmissionCase) (db : Db)
        → HasCase id db u
        → HasCase id (write_case base64 to_ms (results t) c db) u
    unfolding write_case graded_case
    HasCase-write_case t u c db h =
        any-modify (is_case id u) (λ d. str_eq d.id c.id) (graded_case base64 to_ms (results t))
          db.submission_cases (λ d. refl)
        ∙ h

    Step-IsReady :
        {s t : Race}
        → Step id results base64 to_ms s t
        → All (IsReady id s.db) s.jobs
        → All (IsReady id t.db) t.jobs
    Step-IsReady (store s before after t c e found) h =
        let rest =
          (All-without (IsReady id s.db) (arrived t) before after
            (subst (All (IsReady id s.db)) e h)).1 in
        let db' = write_case base64 to_ms (results t) c s.db in
        All-with (IsReady id db') (stored t) before after tt
          (All-IsReady s.db db' (before ++ after) (λ u. HasCase-write_case t u c s.db) rest)
    Step-IsReady (look s before after t e) h =
        All-with (IsReady id s.db) (looked (cases_of_submission id s.db)) before after tt
          (All-without (IsReady id s.db) (stored t) before after
            (subst (All (IsReady id s.db)) e h)).1
    Step-IsReady (finish s before after cases now e) h =
        All-IsReady s.db (recomputed id cases now s.db) (before ++ after)
          (λ u k.
            subst (λ rows. any (is_case id u) rows ≡ true)
              (sym (submission_cases-recomputed id cases now s.db)) k)
          (All-without (IsReady id s.db) (looked cases) before after
            (subst (All (IsReady id s.db)) e h)).1

    Steps-IsReady :
        {s t : Race} {n : ℕ}
        → Steps id results base64 to_ms s n t
        → All (IsReady id s.db) s.jobs
        → All (IsReady id t.db) t.jobs
    Steps-IsReady none_yet h = h
    Steps-IsReady (one_more steps step) h = Step-IsReady step (Steps-IsReady steps h)

    moves :
        (s : Race) (jobs : List Job)
        → s.jobs ≡ jobs
        → All (IsReady id s.db) jobs
        → (s.jobs ≡ []) ⊎ ((t : Race) × Step id results base64 to_ms s t)
    moves s [] e h = inl e
    moves s (arrived t ∷ jobs) e (h, hs) =
        let (c, found) = find_first_of_any (is_case id t) s.db.submission_cases h in
        inr (_, store s [] jobs t c e found)
    moves s (stored t ∷ jobs) e h = inr (_, look s [] jobs t e)
    moves s (looked cases ∷ jobs) e h = inr (_, finish s [] jobs cases 0 e)

    settle_same :
        (cases : List SubmissionCase) (now : ℕ) (r : Submission)
        → is_row id (settle cases now r) ≡ is_row id r
    unfolding settle
    settle_same cases now r = ground arith

    HasRow-Step :
        {s t : Race}
        → Step id results base64 to_ms s t
        → any (is_row id) s.db.submissions ≡ true
        → any (is_row id) t.db.submissions ≡ true
    unfolding write_case
    HasRow-Step (store s before after t c e found) h = h
    HasRow-Step (look s before after t e) h = h
    HasRow-Step (finish s before after cases now e) h =
        ap (any (is_row id)) (submissions-recomputed id cases now s.db)
        ∙ any-modify (is_row id) (is_row id) (settle cases now) s.db.submissions
            (λ r. settle_same cases now r)
        ∙ h

    HasRow-Steps :
        {s t : Race} {n : ℕ}
        → Steps id results base64 to_ms s n t
        → any (is_row id) s.db.submissions ≡ true
        → any (is_row id) t.db.submissions ≡ true
    HasRow-Steps none_yet h = h
    HasRow-Steps (one_more steps step) h = HasRow-Step step (HasRow-Steps steps h)

    first :
        {s t u : Race} {m : ℕ}
        → Step id results base64 to_ms s t
        → Steps id results base64 to_ms t m u
        → Steps id results base64 to_ms s (suc m) u
    first step none_yet = one_more none_yet step
    first step (one_more steps last) = one_more (first step steps) last

    both :
        {s t u : Race} {n m : ℕ}
        → Steps id results base64 to_ms s n t
        → Steps id results base64 to_ms t m u
        → (k : ℕ) × Steps id results base64 to_ms s k u
    both steps none_yet = (_, steps)
    both steps (one_more more last) = (_, one_more (both steps more).1 last)

    -- A race whose callbacks have `m` steps before them can be brought to its end by as many.
    goes_on :
        (m : ℕ) (s : Race)
        → sum_of (steps_of id key results base64 to_ms []) s.jobs ≡ m
        → All (IsReady id s.db) s.jobs
        → (u : Race) × Steps id results base64 to_ms s m u × (u.jobs ≡ [])
    goes_on zero s left ready = elim (moves s s.jobs refl ready) [
      | inl over ↦ (s, none_yet, over)
      | inr (t, step) ↦
          absurd (omega (arith, left, Step_counted id key results base64 to_ms [] step))
    ]
    goes_on (suc m) s left ready = elim (moves s s.jobs refl ready) [
      | inl over ↦
          absurd (omega (arith, left, ap (sum_of (steps_of id key results base64 to_ms [])) over))
      | inr (t, step) ↦
          let counted = Step_counted id key results base64 to_ms [] step in
          let (u, steps, over) =
            goes_on m t (omega (arith, left, counted)) (Step-IsReady step ready) in
          (u, first step steps, over)
    ]

    -- Let a submission be there, each of its rows the only one for its test case, with an identifier
    -- that no other row has, and none final yet. Let the callbacks of test cases that cover its rows,
    -- each with a row and with results that are final, be handled at once. After any `n` steps, in any
    -- order, each callback that has not written yet finds its row, and the submission is there, so that
    -- none is answered 404 and none throws; and the race can be brought to its end, by the steps that are
    -- missing to three for each callback: then none waits, and the submission, still there, has the
    -- combined verdict of all results.
    pub interleaved_completes :
        (t : String) (ts : List String) (db : Db) {n : ℕ} {s : Race}
        → IsKeyed id key results db.submission_cases
        → every (is_open id) db.submission_cases ≡ true
        → every (covered id (t ∷ ts)) db.submission_cases ≡ true
        → every is_final_verdict (map (verdict results) (tests_of id db)) ≡ true
        → All (HasCase id db) (t ∷ ts)
        → any (is_row id) db.submissions ≡ true
        → Steps id results base64 to_ms (start id key results t ts db) n s
        → All (IsReady id s.db) s.jobs
          × (any (is_row id) s.db.submissions ≡ true)
          × ((m : ℕ) × (u : Race) × Steps id results base64 to_ms s m u
              × (n + m ≡ 3 * length (t ∷ ts))
              × (u.jobs ≡ [])
              × (any (is_row id) u.db.submissions ≡ true)
              × (every (has_combined id (map (verdict results) (tests_of id db))) u.db.submissions
                  ≡ true))
    interleaved_completes t ts db {s = s} keyed waiting cover final cases there steps =
        let ready = Steps-IsReady steps (start-IsReady db (t ∷ ts) cases) in
        let row = HasRow-Steps steps there in
        let m = sum_of (steps_of id key results base64 to_ms []) s.jobs in
        let (u, more, over) = goes_on m s refl ready in
        let settled =
          interleaved_settles id key results base64 to_ms t ts db keyed waiting cover final
            (both steps more).1 over in
        (
          ready,
          row,
          (
            m,
            u,
            more,
            Steps_counted id key results base64 to_ms [] steps
                ∙ all_arrived id key results base64 to_ms [] (t ∷ ts),
            over,
            HasRow-Steps more row,
            settled.1,
          ),
        )
