-- ===== src/Nucleus.antt =====
-- The nucleus: src/stateUtil.c, scheduler.c, nucleousSystemCalls.c, exceptions.c, interrupts.c and
-- init.c, over one state.
pub mod Machine
pub mod Sched
pub mod Calls
pub mod Interrupts
pub mod Exceptions
pub mod Start
pub mod Switch
pub mod Slice
pub mod Devices
pub mod Saved
pub mod Waits
pub mod Wake
pub mod Block
pub mod Passeren
pub mod Verhogen
pub mod Clock
pub mod Release
pub mod Lines
pub mod Served
pub mod WaitIo
pub mod Booted
pub mod Signals
pub mod Good
pub mod SafeSched
pub mod Moved
pub mod SafeCalls
pub mod SafeClock
pub mod SafeSyscalls
pub mod SafeInterrupts
pub mod SafeEntry
pub mod Reach
pub mod Gone
pub mod Off
pub mod Ended
pub mod After
pub mod Subtree
pub mod Cut
pub mod Children
pub mod Over
pub mod Terminated
