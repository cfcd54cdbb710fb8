-- ===== src/Memory.antt =====
-- internal/memory: the short texts made of a memory.
pub mod Tiering
pub mod Bounds
mod Tests
