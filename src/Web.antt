-- ===== src/Web.antt =====
-- The web side of pkg/sgtm: what a handler reads of a request (net/http, chi), the response writer,
-- and handlers as programs over the database and the response.
mod Message
mod Handler
pub mod Hoare
pub mod Ends
pub mod Leads
pub mod Finds
pub mod Moves
pub mod Agree
pub use Message.*
unfoldable pub use Handler.*
