-- ===== src/Worker.antt =====
-- pkg/sgtm/processing_worker.go: the worker that brings the stored tracks up to the last version.
mod Migrations
mod Loop
pub mod Laws
pub mod Respects
pub mod Marks
pub mod Settles
pub mod Start
unfoldable pub use Migrations.*
unfoldable pub use Loop.*
unfoldable pub use Start.*
