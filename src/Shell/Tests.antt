-- ===== src/Shell/Tests.antt =====
-- A witness for the shell's splitting of a line.
