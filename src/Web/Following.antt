-- ===== src/Web/Following.antt =====
-- All that can happen on the page of a submission: what it shows, and that it stops asking.
use judge.Base.{
  count-around, every-around, sum_of-around, ℕ, suc, ◌+◌, ◌*◌, ◌≤◌, ◌≡◌, refl, ◌∙◌, sym, ap, ◌⊎◌,
  inl, inr, String, Bool, true, false, not, ◌&&◌, ◌||◌, ◌==◌, leb, List, [], ◌∷◌, ◌++◌, count,
  every, sum_of, length, str_eq, eq_iff, arith, if◌then◌else◌, Bool-cases, &&-parts,
}
use judge.Client.{Fetched}
use judge.Editor.{SubmissionDetail}
use judge.Web.SubmissionPage.{Task, Viewer, is_alive, visit, revisit, leave, answered, fired}

-- The visitor opens another submission or leaves; a request is answered, or a timer fires, in any
-- order.
pub data Step : Viewer → Viewer → Type 0 where
  open_other : (s : Viewer) (id : String) → s.mounted ≡ true → Step s (revisit id s)
  go_away : (s : Viewer) → s.mounted ≡ true → Step s (leave s)
  request_ends :
      (s : Viewer) (before after : List Task) (t : Task) (r : Fetched SubmissionDetail)
      → s.tasks ≡ (before ++ t ∷ after)
      → t.is_timer ≡ false
      → Step s (answered t r (before ++ after) s)
  timer_ends :
      (s : Viewer) (before after : List Task) (t : Task)
      → s.tasks ≡ (before ++ t ∷ after)
      → t.is_timer ≡ true
      → Step s (fired t (before ++ after) s)

-- A number of steps.
pub data Steps (s : Viewer) : ℕ → Viewer → Type 0 where
  none_yet : Steps s 0 s
  one_more : {n : ℕ} {t u : Viewer} → Steps s n t → Step t u → Steps s (suc n) u

abbrev pub is_current : Viewer → Task → Bool
is_current s t = t.run == s.run

abbrev is_own : Viewer → Task → Bool
is_own s t = leb t.run s.run && (not (t.run == s.run) || str_eq t.id s.id)

-- At most one task belongs to the current run; no task to a later one, and those of the current run
-- ask for the submission that is open.
pub record IsFollowing (s : Viewer) : Type 0 where
  pub single : count (is_current s) s.tasks ≤ 1
  pub own : every (is_own s) s.tasks ≡ true

module _ (s : Viewer) (before after : List Task) (t : Task)
    (e : s.tasks ≡ (before ++ t ∷ after)) where
  single_of :
      IsFollowing s → (if t.run == s.run then 1 else 0) + count (is_current s) (before ++ after) ≤ 1
  single_of h =
      omega
        (arith, h.single, ap (count (is_current s)) e, count-around (is_current s) t before after)

  own_of : IsFollowing s → (is_own s t && every (is_own s) (before ++ after)) ≡ true
  own_of h = sym (every-around (is_own s) t before after) ∙ sym (ap (every (is_own s)) e) ∙ h.own

  answered-IsFollowing :
      (r : Fetched SubmissionDetail)
      → IsFollowing s
      → IsFollowing (answered t r (before ++ after) s)
  unfolding answered
  answered-IsFollowing r h = ground (arith, single_of h, own_of h)

  fired-IsFollowing : IsFollowing s → IsFollowing (fired t (before ++ after) s)
  unfolding fired
  fired-IsFollowing h = ground (arith, single_of h, own_of h)

-- No task belongs to a run that is yet to come.
count_later :
    (run : ℕ) (id : String) (ts : List Task)
    → every (λ (t : Task). leb t.run run && (not (t.run == run) || str_eq t.id id)) ts ≡ true
    → count (λ (t : Task). t.run == suc run) ts ≡ 0
count_later run id [] h = refl
count_later run id (t ∷ ts) h = ground (arith, count_later run id ts)

every_later :
    (run : ℕ) (id id' : String) (ts : List Task)
    → every (λ (t : Task). leb t.run run && (not (t.run == run) || str_eq t.id id)) ts ≡ true
    → every (λ (t : Task). leb t.run (suc run) && (not (t.run == suc run) || str_eq t.id id')) ts
      ≡ true
every_later run id id' [] h = refl
every_later run id id' (t ∷ ts) h = ground (arith, every_later run id id' ts)

revisit-IsFollowing : (s : Viewer) (id : String) → IsFollowing s → IsFollowing (revisit id s)
unfolding revisit
revisit-IsFollowing s id h = ground (
  arith,
  eq_iff id id,
  count_later s.run s.id s.tasks h.own,
  every_later s.run s.id id s.tasks h.own,
)

visit-IsFollowing : (id : String) → IsFollowing (visit id)
unfolding visit
visit-IsFollowing id = ground (arith, eq_iff id id)

Step-IsFollowing : {s t : Viewer} → Step s t → IsFollowing s → IsFollowing t
unfolding leave
Step-IsFollowing (open_other s id m) h = revisit-IsFollowing s id h
Step-IsFollowing (go_away s m) h = record { single = h.single; own = h.own }
Step-IsFollowing (request_ends s before after t r e k) h =
    answered-IsFollowing s before after t e r h
Step-IsFollowing (timer_ends s before after t e k) h = fired-IsFollowing s before after t e h

Steps-IsFollowing : {s : Viewer} {n : ℕ} {t : Viewer} → Steps s n t → IsFollowing s → IsFollowing t
Steps-IsFollowing none_yet h = h
Steps-IsFollowing (one_more r st) h = Step-IsFollowing st (Steps-IsFollowing r h)

-- What an answer leaves on the page: what stood there; or it belongs to the current run and asked for
-- the submission that is open, with the page still there.
abbrev pub ShowsOwn : Viewer → Task → Viewer → Type 0
ShowsOwn s t u =
    (u.submission ≡ s.submission) ⊎ ((t.run ≡ s.run) × (t.id ≡ s.id) × (s.mounted ≡ true))

answered-shown :
    (s : Viewer) (t : Task) (rest : List Task) (r : Fetched SubmissionDetail)
    → is_own s t ≡ true
    → ShowsOwn s t (answered t r rest s)
unfolding answered is_alive
answered-shown s t rest r own = elim (Bool-cases (s.mounted && t.run == s.run)) [
  | inl e ↦ inr (ground (arith, e), ground (arith, e, own, eq_iff t.id s.id), ground (arith, e))
  | inr e ↦ inl ground (arith, e)
]

-- However the visitor opens submissions and leaves, and whenever answers and timers come: at most
-- one request or timer belongs to the current run of the effect, and an answer changes the submission
-- on the page only if it belongs to that run, was asked for the submission that is open, and the page
-- is still there. Answers of earlier runs leave it, also those for the same submission.
pub viewer-ShowsOwn :
    {n : ℕ} (id : String) {s : Viewer}
    → Steps (visit id) n s
    → (before after : List Task) (t : Task) (r : Fetched SubmissionDetail)
    → s.tasks ≡ (before ++ t ∷ after)
    → (count (is_current s) s.tasks ≤ 1) × ShowsOwn s t (answered t r (before ++ after) s)
viewer-ShowsOwn id {s} steps before after t r e =
    let h = Steps-IsFollowing steps (visit-IsFollowing id) in
    (
      h.single,
      answered-shown s t (before ++ after) r (&&-parts _ _ (own_of s before after t e h)).0,
    )

-- A timer stands for its request, too.
abbrev weight : Task → ℕ
weight t = if t.is_timer then 2 else 1

abbrev pub work_left : Viewer → ℕ
work_left s = sum_of weight s.tasks

Step-work_left :
    {s t : Viewer}
    → Step s t
    → s.mounted ≡ false
    → (t.mounted ≡ false) × (suc (work_left t) ≤ work_left s)
unfolding answered fired is_alive
Step-work_left (open_other s id m) h = absurd (ground (arith, m, h))
Step-work_left (go_away s m) h = absurd (ground (arith, m, h))
Step-work_left (request_ends s before after t r e k) h =
    let total = ap (sum_of weight) e ∙ sum_of-around weight t before after in
    ground (arith, total, k, h)
Step-work_left (timer_ends s before after t e k) h =
    let total = ap (sum_of weight) e ∙ sum_of-around weight t before after in
    ground (arith, total, k, h)

work_left-le : (ts : List Task) → sum_of weight ts ≤ 2 * length ts
work_left-le [] = omega arith
work_left-le (t ∷ ts) = ground (arith, work_left-le ts)

Steps-work_left :
    {s : Viewer} {n : ℕ} {t : Viewer}
    → Steps s n t
    → s.mounted ≡ false
    → (t.mounted ≡ false) × (n + work_left t ≤ work_left s)
Steps-work_left none_yet h = (h, omega arith)
Steps-work_left (one_more r st) h =
    let (gone, le) = Steps-work_left r h in
    let (gone', le') = Step-work_left st gone in (gone', omega arith)

-- A page that has been left stops asking: whatever happens from then on are at most two steps for
-- each request or timer that it had, since an answer starts no timer any more.
pub left_stops : {n : ℕ} {s t : Viewer} → Steps s n t → s.mounted ≡ false → n ≤ 2 * length s.tasks
left_stops {s = s} r h = omega (arith, (Steps-work_left r h).1, work_left-le s.tasks)
