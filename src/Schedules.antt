-- ===== src/Schedules.antt =====
-- internal/schedule: the SCD-2 store of firing schedules and the runner that fires them.
pub mod Schedule
pub mod Store
pub mod Ids
pub mod Lifecycle
pub mod Budget
pub mod Runner
pub mod Reload
pub mod Fire
mod Tests
