-- ===== src/Evs.antt =====
-- internal/evs: the client of the IDrive EVS API, its uploads, moves and recovery journal.
pub mod Errors
pub mod Files
pub mod Types
pub mod Monad
pub mod Api
pub mod Cache
pub mod Listing
pub mod Mutations
pub mod Transfer
pub mod Journal
pub mod Upload
pub mod Move
pub mod Keeps
pub mod Leads
pub mod Ahead
pub mod Footprint
pub mod Runs
pub mod Gives
