-- ===== src/Relationships.antt =====
-- internal/relationships/store.go: the SCD-2 store of edges between entities.
pub mod Edge
pub mod Write
pub mod Read
pub mod Walk
pub mod Scd
pub mod Effects
pub mod TimeTravel
pub mod PastWalks
pub mod Levels
pub mod Rounds
pub mod Shortest
pub mod Batches
pub mod Present
pub mod Fixtures
mod Tests
mod ReadTests
