-- ===== src/Server/Routes.antt =====
-- Which handler a request reaches: the mounts of platform/backend/src/server.ts and the routes of the
-- routers. A path is the list of its segments, none of them empty and none with an escape (`%`), which
-- express would decode in a parameter only: slugs, identifiers and names have none. A `/` at the end
-- adds nothing. Express compares fixed segments without regard to case, and sends HEAD to the handlers
-- of GET; OPTIONS is answered by the cors middleware before it comes here.
use Prim.Native.Char.{Char, code}
use judge.Base.{
  ◌+◌, String, Bool, true, false, ◌&&◌, ◌||◌, ◌==◌, List, [], ◌∷◌, Option, none, some,
  if◌then◌else◌,
}
use judge.Text.{is_upper}

pub data Method : Type 0 where
  get head post put delete other : Method

-- whether a letter of a path is one of a route, whose letters are small
abbrev same_letter : Char → Char → Bool
same_letter c d = code d == code c || (is_upper (code d) && code d + 32 == code c)

unfoldable pub matches : String → String → Bool
matches String.[] String.[] = true
matches String.[] (String.◌∷◌ d segment) = false
matches (String.◌∷◌ c name) String.[] = false
matches (String.◌∷◌ c name) (String.◌∷◌ d segment) = same_letter c d && matches name segment

-- One for each route, with its parameter. The guard of the admin router is reached by paths that none
-- of its routes matches, too.
pub data Endpoint : Type 0 where
  health register login logout me : Endpoint
  problems : Endpoint
  problem run submit : String → Endpoint
  submissions : Endpoint
  submission : String → Endpoint
  discussions create_discussion : Endpoint
  discussion reply upvote : String → Endpoint
  contests : Endpoint
  contest join : String → Endpoint
  leaderboard tags daily languages : Endpoint
  user : String → Endpoint
  admin_list admin_create admin_other : Endpoint
  admin_get admin_update admin_delete : String → Endpoint
  callback : Endpoint

abbrev Router : Type 0
Router = Method → List String → Option Endpoint

-- a route whose path is one fixed segment, and what comes if it is another
abbrev at : String → Endpoint → String → Option Endpoint → Option Endpoint
at name e segment otherwise = if matches name segment then some e else otherwise

unfoldable pub health_router : Router
health_router get [] = some health
health_router _ _ = none

unfoldable pub auth_router : Router
auth_router post (s ∷ []) =
    at "register" register s (at "login" login s (at "logout" logout s none))
auth_router get (s ∷ []) = at "me" me s none
auth_router _ _ = none

unfoldable pub problems_router : Router
problems_router get [] = some problems
problems_router get (slug ∷ []) = some (problem slug)
problems_router post (slug ∷ s ∷ []) = at "run" (run slug) s (at "submit" (submit slug) s none)
problems_router _ _ = none

unfoldable pub submissions_router : Router
submissions_router get [] = some submissions
submissions_router get (id ∷ []) = some (submission id)
submissions_router _ _ = none

unfoldable pub discussions_router : Router
discussions_router get [] = some discussions
discussions_router get (id ∷ []) = some (discussion id)
discussions_router post [] = some create_discussion
discussions_router post (id ∷ s ∷ []) = at "replies" (reply id) s (at "upvote" (upvote id) s none)
discussions_router _ _ = none

unfoldable pub contests_router : Router
contests_router get [] = some contests
contests_router get (slug ∷ []) = some (contest slug)
contests_router post (slug ∷ s ∷ []) = at "register" (join slug) s none
contests_router _ _ = none

-- a router with the one route `GET /`
abbrev only_root : Endpoint → Router
only_root e get [] = some e
only_root e _ _ = none

unfoldable pub users_router : Router
users_router get (name ∷ []) = some (user name)
users_router _ _ = none

unfoldable pub admin_router : Router
admin_router get (s ∷ []) = at "problems" admin_list s (some admin_other)
admin_router post (s ∷ []) = at "problems" admin_create s (some admin_other)
admin_router get (s ∷ id ∷ []) = at "problems" (admin_get id) s (some admin_other)
admin_router put (s ∷ id ∷ []) = at "problems" (admin_update id) s (some admin_other)
admin_router delete (s ∷ id ∷ []) = at "problems" (admin_delete id) s (some admin_other)
admin_router _ _ = some admin_other

unfoldable pub internal_router : Router
internal_router put (s ∷ []) = at "judge0-callback" callback s none
internal_router _ _ = none

-- `app.use('/api/…', …)`
unfoldable pub mounts : List (String × Router)
unfolding health_router auth_router problems_router submissions_router discussions_router
    contests_router users_router admin_router internal_router
mounts =
    ("health", health_router)
    ∷ ("auth", auth_router)
    ∷ ("problems", problems_router)
    ∷ ("submissions", submissions_router)
    ∷ ("discussions", discussions_router)
    ∷ ("contests", contests_router)
    ∷ ("leaderboard", only_root leaderboard)
    ∷ ("tags", only_root tags)
    ∷ ("daily", only_root daily)
    ∷ ("users", users_router)
    ∷ ("admin", admin_router)
    ∷ ("languages", only_root languages)
    ∷ ("internal", internal_router)
    ∷ []

unfoldable pub routed : String → List (String × Router) → Router
routed name [] m rest = none
routed name (mount ∷ more) m rest =
    let further = routed name more m rest in
    if matches mount.0 name then mount.1 m rest else further

abbrev as_get : Method → Method
as_get head = get
as_get m = m

unfoldable pub route : Router
unfolding routed mounts
route m (api ∷ name ∷ rest) = if matches "api" api then routed name mounts (as_get m) rest else none
route m _ = none

-- The paths to which `submitLimiter` is mounted.
unfoldable pub is_limited : List String → Bool
is_limited (api ∷ name ∷ rest) = matches "api" api && matches "problems" name
is_limited _ = false
