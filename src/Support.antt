-- ===== src/Support.antt =====
-- src/initSupp.c and src/supportSystemCalls.c: the support structures and the system calls of the
-- support level.
pub mod Defs
pub mod Stack
pub mod Console
pub mod Strings
pub mod Writes
pub mod Reads
pub mod Ends
