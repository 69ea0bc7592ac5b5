-- ===== src/Shell/Splitting.antt =====
-- The loops of the shell, usr/shell.c, that count and copy the words of a command line.
