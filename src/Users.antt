-- ===== src/Users.antt =====
-- src/p3test.c: the first process of the system, which starts the user processes.
pub mod Defs
pub mod Starts
