-- ===== src/Db.antt =====
-- What the store asks of the database layer gorm.io/gorm and of the snowflake node: the queries as
-- data, the calls as a record that the store takes as a parameter, and what the store relies on.
mod Outcome
mod Query
mod Driver
pub mod Laws
pub mod Rows
pub mod Respects
pub mod Growth
pub mod Texts
pub mod Tracks
pub mod Selection
pub mod Writes
pub mod Memory
pub mod MemoryRows
pub mod MemoryTracks
pub mod MemoryWrites
pub use Outcome.*
pub use Query.*
pub use Driver.*
