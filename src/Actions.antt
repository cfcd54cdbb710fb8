-- ===== src/Actions.antt =====
-- internal/action/polarity.go: the search for the forbidden patterns of a rule.
pub mod Words
pub mod Found
pub mod Forbidden
mod Tests
