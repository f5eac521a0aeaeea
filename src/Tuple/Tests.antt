-- ===== src/Tuple/Tests.antt =====
-- The theorems on rows at a small row, with its text behind a header of four bytes.
