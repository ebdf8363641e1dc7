-- ===== src/Vm.antt =====
-- src/vmSupport.c and the page search of src/sysSupport.c.
pub mod Defs
pub mod Frames
pub mod Pages
pub mod Transfers
pub mod Refill
pub mod Faults
pub mod Pool
pub mod PageFault
