-- ===== src/Tests/Search.antt =====
-- The theorem on the lines for fzf, applied.
