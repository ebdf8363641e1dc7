-- ===== src/Asl.antt =====
-- src/asl.c: the active semaphores. The list of descriptors is a map from semaphores to queues.
pub mod Defs
pub mod Find
pub mod Entries
pub mod Seg
pub mod Locate
pub mod Lookup
pub mod Frame
pub mod Insert
pub mod InsertRun
pub mod InsertNew
pub mod Blocked
pub mod Release
pub mod Remove
pub mod Out
pub mod Head
pub mod Init
pub mod Same
pub mod Marks
pub mod Room
