-- ===== src/Comments/Lists.antt =====
-- internal/comments/store.go: what List returns.
