-- ===== src/Settings.antt =====
-- internal/settings: the catalog of knobs, the store of their values and the resolver that
-- inherits them.
pub mod Store
pub mod Catalog
pub mod Resolver
pub mod Keys
pub mod Agree
pub mod Inherit
pub mod Stored
mod Tests
