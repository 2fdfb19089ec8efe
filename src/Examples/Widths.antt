-- ===== src/Examples/Widths.antt =====
-- The types of C in one cycle, on the tree with two processes.
