-- ===== src/Examples.antt =====
-- The theorems at concrete inputs: a database in memory, with a user and a track, and requests to it.
mod Api
mod Sample
mod Pages
mod Login
mod Store
mod Options
mod Worker
mod Ipfs
mod Posts
pub mod Server
mod Command
mod Discord
mod Privacy
