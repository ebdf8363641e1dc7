-- ===== src/Tests.antt =====
-- Concrete inputs: the theorems applied to small tables, and runs of the code.
pub mod Queues
mod Trees
mod Stacks
mod Kernels
mod Pages
mod Consoles
mod Phases
pub mod Waiting
pub mod Calls
mod Entries
mod Families
