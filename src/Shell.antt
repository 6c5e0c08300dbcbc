-- ===== src/Shell.antt =====
-- The command shell of ncftp: ncftp/shell.c.
pub mod Argv
