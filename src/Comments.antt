-- ===== src/Comments.antt =====
-- internal/comments and internal/task/review.go: the comments on an entity, and the reviews of a
-- task that are kept as comments.
pub mod Types
pub mod Store
pub mod Review
pub mod Verdicts
pub mod Writes
pub mod Lists
mod Tests
