-- ===== src/Cli.antt =====
-- app/main.c: the arguments of the command line, and the run they ask for.
pub mod Args
pub mod Text
pub mod Errors
pub mod Run
