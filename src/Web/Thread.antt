-- ===== src/Web/Thread.antt =====
-- The page of a discussion, platform/frontend/app/discussions/[id]/page.tsx.
use judge.Base.{Bool, true, false, String, Option, none, some, if◌then◌else◌}
use judge.Text.Parts.{is_empty, trim}
use judge.Discussions.{DiscussionView}
use judge.Client.{Fetched, received, api_error, failed, request}

pub record ThreadPage : Type 0 where
  pub thread : Option DiscussionView
  pub reply : String

unfoldable pub new_page : ThreadPage
new_page = record { thread = none; reply = "" }

-- `load`: errors are swallowed.
unfoldable pub thread_loaded : Fetched DiscussionView → ThreadPage → ThreadPage
thread_loaded r s = elim (request r) [
  | received v ↦ elim v [ some d ↦ record s { thread = some d } | none ↦ s ]
  | api_error status text ↦ s
  | failed ↦ s
]

-- What `postReply` sends, if anything.
unfoldable pub reply_body : ThreadPage → Option String
unfolding trim
reply_body s = if is_empty (trim s.reply) then none else some s.reply

-- Whether a request has gone through, so that what follows it in the handler is run; an error is not
-- caught, and ends the handler.
unfoldable pub went_through : {B : Type 0} → Fetched B → Bool
went_through r = elim (request r) [
  | received v ↦ true
  | api_error status text ↦ false
  | failed ↦ false
]

-- After a reply has gone through: the input is emptied, and the thread is loaded.
unfoldable pub reply_sent : ThreadPage → ThreadPage
reply_sent s = record s { reply = "" }
