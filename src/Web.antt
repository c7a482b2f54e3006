-- ===== src/Web.antt =====
-- The pages of platform/frontend, with the server behind them.
pub mod Wire
pub mod Me
pub mod AdminList
pub mod Gate
pub mod Deleting
pub mod ProblemList
pub mod Races
pub mod SubmissionPage
pub mod Following
pub mod Forms
pub mod Registering
pub mod Thread
pub mod Replying
pub mod ContestPage
pub mod Lists
pub mod Labels
pub mod Badges
pub mod OwnLists
pub mod Screen
pub mod Graded
pub mod Verdict
