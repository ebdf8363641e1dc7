-- ===== src/Pcb.antt =====
-- src/pcb.c.
pub mod Defs
pub mod Ring
pub mod Queue
pub mod Frame
pub mod Erase
pub mod Pigeon
pub mod Takeout
pub mod Out
pub mod Alloc
pub mod Free
pub mod Init
pub mod Tree
pub mod Detach
pub mod Forest
pub mod Orphan
