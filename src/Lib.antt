-- ===== src/Lib.antt =====
-- The judge platform: the backend, platform/backend/src, as functions on a database, its seed, and the
-- pages of platform/frontend as states with the requests that they wait for.
--
-- The program is an express server and a Next.js front. A request passes the session middleware
-- (Auth), perhaps a guard, and a handler of one of the routers; the handler reads and writes the
-- PostgreSQL database through Prisma and calls Judge0 through axios; what it throws becomes an error
-- reply (Http). A submission is created by one handler (Submit), run by Judge0, and graded by the
-- callbacks that Judge0 sends (Callback), one for each test case; the last one settles the verdict
-- and the score of the contest. The pages send requests through one helper (Client) and change their
-- state when the answers come.
--
-- Files and the code they model, below platform/backend/src where no other path is named:
--   Server       server.ts: the middlewares, and all handlers on the state of the process; Server/Routes
--                has the mounts and the routes
--   Schema       platform/backend/prisma/schema.prisma: one record per model, one list per table
--   Http         middleware/error.ts, and the `try { … } catch (e) { next(e) }` of the handlers
--   Auth         middleware/auth.ts: signToken, readToken, authOptional and the two guards
--   Grader       lib/grader.ts: judge0StatusToVerdict, combineVerdicts, isFinalVerdict
--   Judge0       lib/judge0.ts: runSync, submitBatch, getBatch, listLanguages, decodeResult
--   Problems     routes/problems.ts: GET /, GET /:slug, POST /:slug/run
--   Submit       routes/problems.ts: POST /:slug/submit, in its steps
--   Callback     routes/internal.ts: PUT /judge0-callback; Callback/Scoring has updateContestScore, and
--                Callback/Race the steps between the awaits of the handler
--   Accounts     routes/auth.ts
--   Submissions, Contests, Discussions, Users, Daily, Leaderboard, Tags, Languages and Admin
--                the routers of these names in routes/
--   Seed         platform/backend/prisma/seed.ts: upsertProblem; Seed/Main has main, and Seed/Data
--                the tags and problems that it is called with
-- and below platform/frontend:
--   Client       lib/api.ts: request
--   Editor       app/problems/[slug]/page.tsx: state, requests, timers, drafts
--   AdminForm    app/admin/problems/[id]/page.tsx: the controls, loading and saving
--   Text/Parts   what JavaScript's split, join and trim do in that form
--   Web/Wire     how a reply of the backend reaches a page
--   Web/Me       lib/me.ts and the links of components/Navbar.tsx
--   Web/AdminList, Web/ProblemList, Web/SubmissionPage, Web/Thread, Web/ContestPage
--                app/admin/page.tsx, app/problems/page.tsx, app/submissions/[id]/page.tsx,
--                app/discussions/[id]/page.tsx, app/contests/[slug]/page.tsx
--   Web/Forms    app/login/page.tsx, app/register/page.tsx, app/discussions/new/page.tsx
--   Web/Lists    the pages and tabs that load one list
--   Web/Screen   what is shown of a submission and of a run
--   Web/Verdict  what the page of a problem reads of a submission, and the whole way to its verdict
--   Web/Labels   components/StatusBadge.tsx, components/DifficultyBadge.tsx, lib/languages.ts
-- Pipeline joins Submit and Callback; Pipeline/Submitted is about `submit` as a whole. Base holds the shared helpers, Prisma the interface of the
-- database client, Text the checks of texts, and Tests the data on which the theorems are tried.
--
-- State. The tables are lists of rows without a meaning of their order. A handler takes the
-- database and gives a reply and the database after it; what it wrote before it threw stays. A
-- handler is run as one action; the steps of `submit` before and after its call of Judge0, and the
-- steps of a callback, are definitions of their own, so that other requests can be put between
-- them, as Pipeline and Tests/Interleaving do. Callback/Race is the relation of the steps of several
-- callbacks of one submission, in any order. The state of the languages router is its cache; the
-- database and it are the state on which Server runs requests one after the other. Only
-- structural recursion is used: there is no fuel and no bound on the number of rows.
--
-- A page is a record of its React state and, where they matter, of the requests and timers that it
-- has started. An answer is a value of Client.Fetched; Web/Wire makes it of the reply of a handler,
-- so that a page and the backend can be run together. A handler that goes on after an `await` keeps
-- the values of the rendering in which it was started, which Web/AdminList writes out. Editor/Steps,
-- Web/Races and Web/Following are the relations of all that can happen to a page.
--
-- Parameters. Prisma: queries, updates and sorting with what its documentation promises; a query
-- may answer in any order where none is asked for. The database answers every call, and where a
-- unique key or a reference would be broken the handler throws. Judge0, jsonwebtoken, bcrypt,
-- base64, HMAC-SHA256, zod's and the browser's tests of an address, the rounding of a time, the case
-- folding of texts and fresh identifiers are arguments too, with the laws that are used. Times are
-- milliseconds, bodies come parsed into the shape of their schema or not at all.
--
-- Not modelled: markup, layout and the third-party components that a page is made of; how express
-- splits a path into segments, escapes in it, and the preflight requests that cors answers; how the
-- limiter counts; headers of replies, logging; the Rails service behind Judge0's interface;
-- deployment; and a relation of all interleavings of requests other than the callbacks of one
-- submission.
pub mod Accounts
pub mod Admin
pub mod AdminForm
pub mod Auth
pub mod Base
pub mod Callback
pub mod Client
pub mod Contests
pub mod Daily
pub mod Discussions
pub mod Editor
pub mod Grader
pub mod Http
pub mod Judge0
pub mod Languages
pub mod Leaderboard
pub mod Pipeline
pub mod Prisma
pub mod Problems
pub mod Schema
pub mod Seed
pub mod Server
pub mod Submissions
pub mod Submit
pub mod Tags
pub mod Tests
pub mod Text
pub mod Users
pub mod Web
