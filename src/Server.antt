-- ===== src/Server.antt =====
-- pkg/sgtm/http_server.go: the routes of the web server, and what it does with a request.
mod Routes
pub mod Sitemap
mod Static
mod Serve
pub mod Moves
pub mod History
pub mod Permits
pub mod Covers
pub mod Uniqueness
pub mod Privacy
pub mod Ownership
pub mod Lifecycle
pub mod Anonymous
unfoldable pub use Routes.*
unfoldable pub use Sitemap.*
unfoldable pub use Static.*
unfoldable pub use Serve.*
