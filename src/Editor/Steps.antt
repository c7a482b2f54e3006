-- ===== src/Editor/Steps.antt =====
-- All that can happen on the page, and that it is busy exactly while it waits.
use judge.Base.{
  ℕ, String, true, false, ◌≡◌, refl, inl, inr, List, ◌∷◌, Option, if◌then◌else◌, arith, length,
  Bool-cases,
}
use judge.Problems.{ProblemView, RunView}
use judge.Client.{Fetched}
use judge.Editor.{
  BottomTab, Page, Work, run, submit, poll, timer, SubmissionDetail, loaded, set_code, set_language,
  on_run, run_answered, on_submit, submit_answered, poll_answered, timer_fired,
}

-- The buttons are disabled while the page is busy; whatever the page waits for can end at any time.
pub data Step : Page → Page → Type 0 where
  edit : (s : Page) (code : String) → Step s (set_code code s)
  choose : (s : Page) (l : ℕ) → Step s (set_language l s)
  type_stdin : (s : Page) (text : String) → Step s (record s { stdin = text })
  show_tab : (s : Page) (t : BottomTab) → Step s (record s { bottom_tab = t })
  click_run : (s : Page) → s.busy ≡ false → Step s (on_run s)
  click_submit : (s : Page) → s.busy ≡ false → Step s (on_submit s)
  run_ends :
      (s : Page) (rest : List Work) (r : Fetched RunView)
      → s.work ≡ (run ∷ rest)
      → Step s (run_answered r rest s)
  submit_ends :
      (s : Page) (rest : List Work) (r : Fetched String)
      → s.work ≡ (submit ∷ rest)
      → Step s (submit_answered r rest s)
  poll_ends :
      (s : Page) (rest : List Work) (id : String) (r : Fetched SubmissionDetail)
      → s.work ≡ (poll id ∷ rest)
      → Step s (poll_answered id r rest s)
  timer_ends :
      (s : Page) (rest : List Work) (id : String)
      → s.work ≡ (timer id ∷ rest)
      → Step s (timer_fired id rest s)

pub data Reach (s : Page) : Page → Type 0 where
  here : Reach s s
  next : {t u : Page} → Reach s t → Step t u → Reach s u

-- The page is idle and waits for nothing, or it is busy and waits for one thing.
abbrev pub IsSettled : Page → Type 0
IsSettled s = length s.work ≡ (if s.busy then 1 else 0)

module _ (s : Page) (rest : List Work) where
  run_answered-IsSettled :
      (r : Fetched RunView) → length rest ≡ 0 → IsSettled (run_answered r rest s)
  unfolding run_answered
  run_answered-IsSettled r h = ground (arith, h)

  submit_answered-IsSettled :
      (r : Fetched String) → s.busy ≡ true → length rest ≡ 0 → IsSettled (submit_answered r rest s)
  unfolding submit_answered
  submit_answered-IsSettled r b h = ground (arith, b, h)

  poll_answered-IsSettled :
      (id : String) (r : Fetched SubmissionDetail)
      → s.busy ≡ true
      → length rest ≡ 0
      → IsSettled (poll_answered id r rest s)
  unfolding poll_answered
  poll_answered-IsSettled id r b h = ground (arith, b, h)

-- A page that waits is busy, and waits for nothing else.
waits :
    (s : Page) (w : Work) (rest : List Work)
    → IsSettled s
    → s.work ≡ (w ∷ rest)
    → (s.busy ≡ true) × (length rest ≡ 0)
waits s w rest h e = elim (Bool-cases s.busy) [
  | inl b ↦ (b, ground (arith, e, b))
  | inr b ↦ absurd (ground (arith, e, b))
]

Step-IsSettled : {s t : Page} → Step s t → IsSettled s → IsSettled t
unfolding set_code set_language on_run on_submit timer_fired
Step-IsSettled (edit s code) h = h
Step-IsSettled (choose s l) h = h
Step-IsSettled (type_stdin s text) h = h
Step-IsSettled (show_tab s t) h = h
Step-IsSettled (click_run s idle) h = ground (arith, idle)
Step-IsSettled (click_submit s idle) h = ground (arith, idle)
Step-IsSettled (run_ends s rest r e) h = run_answered-IsSettled s rest r (waits s run rest h e).1
Step-IsSettled (submit_ends s rest r e) h =
    submit_answered-IsSettled s rest r (waits s submit rest h e).0 (waits s submit rest h e).1
Step-IsSettled (poll_ends s rest id r e) h =
    poll_answered-IsSettled s rest id r (waits s (poll id) rest h e).0
      (waits s (poll id) rest h e).1
Step-IsSettled (timer_ends s rest id e) h = ground (arith, waits s (timer id) rest h e)

-- From the page as it is loaded on, whatever is clicked, typed or answered, and in whatever order:
-- the page is busy exactly while it waits for one request or timer, and otherwise for none.
pub Reach-IsSettled :
    (p : ProblemView) (l : ℕ) (drafts : ℕ → Option String) {s : Page}
    → Reach (loaded p l drafts) s
    → IsSettled s
unfolding loaded
Reach-IsSettled p l drafts here = refl
Reach-IsSettled p l drafts (next r step) = Step-IsSettled step (Reach-IsSettled p l drafts r)
