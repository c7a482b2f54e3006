-- ===== src/Web/SubmissionPage.antt =====
-- The page of a submission, platform/frontend/app/submissions/[id]/page.tsx. Each submission that is
-- opened runs the effect anew; `run` counts the runs, and a request or a timer belongs to one.
use judge.Base.{
  ℕ, suc, String, Bool, true, false, ◌&&◌, List, [], ◌∷◌, Option, none, some, ◌==◌, if◌then◌else◌,
}
use judge.Client.{Fetched, received, api_error, failed, request}
use judge.Editor.{SubmissionDetail, is_unfinished}

pub record Task : Type 0 where
  pub run : ℕ
  pub id : String
  pub is_timer : Bool

pub record Viewer : Type 0 where
  pub run : ℕ
  pub mounted : Bool
  pub id : String
  pub submission : Option SubmissionDetail
  pub tasks : List Task

-- The flag `alive` of the run that a task belongs to.
unfoldable pub is_alive : Viewer → Task → Bool
is_alive s t = s.mounted && t.run == s.run

unfoldable pub visit : String → Viewer
visit id = record {
  run = 0;
  mounted = true;
  id = id;
  submission = none;
  tasks = record { run = 0; id = id; is_timer = false } ∷ [];
}

-- The parameter `id` changes: the old run is over, and the effect asks for the new submission.
unfoldable pub revisit : String → Viewer → Viewer
revisit id s = record s {
  run = suc s.run;
  id = id;
  tasks = record { run = suc s.run; id = id; is_timer = false } ∷ s.tasks;
}

unfoldable pub leave : Viewer → Viewer
leave s = record s { mounted = false }

-- The answer to a request, the others being `rest`; an error ends the run.
unfoldable pub answered : Task → Fetched SubmissionDetail → List Task → Viewer → Viewer
unfolding is_alive is_unfinished
answered t r rest s = elim (request r) [
  | received v ↦ elim v [
    | some d ↦
        if is_alive s t
        then record s {
          submission = some d;
          tasks = if is_unfinished d.status then record t { is_timer = true } ∷ rest else rest;
        }
        else record s { tasks = rest }
    | none ↦ record s { tasks = rest }
  ]
  | api_error status text ↦ record s { tasks = rest }
  | failed ↦ record s { tasks = rest }
]

-- A timer asks again, whatever has become of its run.
unfoldable pub fired : Task → List Task → Viewer → Viewer
fired t rest s = record s { tasks = record t { is_timer = false } ∷ rest }
