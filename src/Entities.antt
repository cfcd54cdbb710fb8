-- ===== src/Entities.antt =====
-- internal/entity: the versions of entities, their types, and their nodes.
pub mod Entity
pub mod Store
pub mod Replay
pub mod Writes
pub mod Refines
pub mod Past
pub mod Travel
pub mod TimeTravel
pub mod Types
pub mod Nodes
pub mod Links
pub mod LinkRuns
pub mod TypeWrites
pub mod Seeding
pub mod SeedRuns
mod Tests
mod TypeTests
