-- ===== src/Pages.antt =====
-- The handlers of pkg/sgtm/page_*.go, each as a program over the database and the response; the
-- blocks of a handler are functions of their own.
mod Blocks
pub mod Access
pub mod Moves
pub mod Views
pub mod Privacy
pub mod PostPage
pub mod PostEdit
pub mod Tempo
pub mod Maintenance
pub mod Download
pub mod NewPost
pub mod Settings
pub mod Home
pub mod OpenPage
pub mod Profile
pub mod Rss
pub mod Login
