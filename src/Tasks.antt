-- ===== src/Tasks.antt =====
-- internal/task: the statuses of a task, its links and dependencies, and the walk over the dependents of
-- a manifest or of a product that closes.
pub mod Status
pub mod Machine
pub mod Propagate
pub mod Fuel
pub mod Reach
pub mod Freed
pub mod Closing
pub mod Linking
pub mod Links
mod Tests
mod LinkTests
pub mod Deps
pub mod DepWrites
