-- ===== src/Templates.antt =====
-- internal/templates: the SCD-2 store of prompt templates, and their resolution by scope.
pub mod Template
pub mod Store
pub mod Resolver
pub mod Edits
pub mod Actives
pub mod Effects
pub mod Overrides
pub mod Revisions
mod Tests
pub mod Seed
pub mod Seeding
pub mod SeedRuns
