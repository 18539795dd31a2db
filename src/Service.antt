-- ===== src/Service.antt =====
-- pkg/sgtm/service.go: the service that the handlers are methods of, with what it is given.
mod Types
pub mod Auth
pub mod Templates
pub mod Errors
pub mod Funcs
pub mod Reads
pub mod Laws
pub mod Tokens
pub use Types.*
