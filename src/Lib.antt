-- ===== src/Lib.antt =====
-- The PandOS nucleus (ProgettoSO20-21) for the uMPS3 machine: process control blocks, semaphores,
-- scheduler, system calls, interrupts and exceptions, and the pager of the support level.
--
-- The parts and how they meet. The table of process control blocks (pcb.c) holds the free list, the
-- process queues and the process trees. The active semaphore list (asl.c) has a queue of blocks for
-- each semaphore on which a process waits. The nucleus keeps the ready queue, the running process and
-- the counts; its handlers move blocks between the ready queue and the semaphores, and end by loading
-- a process, by passing an exception up, or by halting, waiting or panicking. The support level keeps
-- a stack of support structures and pages user memory through a pool of sixteen frames.
--
-- Files and sources, from the root of the repository:
--   Pcb          src/pcb.c, pcb_t of src/pandos_types.h. Ring and Queue: circular queues as lists;
--                Erase, Takeout and Out: a block out of the middle; Alloc, Free and Init: the free
--                list; Tree, Detach, Forest and Orphan: children and all that stand below a process;
--                Frame and Pigeon: what a queue depends on, and how long it can be.
--   Asl          src/asl.c, semd_t of src/pandos_types.h. Entries: the active list as a list
--                of entries, and the map from semaphores to queues that a state represents; Find, Seg,
--                Locate and Lookup: the search; Frame and Same: what does not matter to the map;
--                Insert, InsertRun, InsertNew and Blocked: insertBlocked; Release, Remove, Out and Head: the
--                other operations; Init: the empty list; Marks: the blocks that wait; Room: there
--                is always a free descriptor.
--   Nucleus      Machine: the globals of src/init.c and src/stateUtil.c; Sched: src/scheduler.c;
--                Calls: src/nucleousSystemCalls.c; Interrupts: src/interrupts.c; Exceptions:
--                src/exceptions.c; Start: main of src/init.c. Switch, Slice, Devices and
--                Saved: the scheduler, the time slice, device numbers and saved states. Waits: the ready
--                queue and the semaphores together; Block, Passeren and WaitIo: a process goes to sleep;
--                Wake, Verhogen, Signals, Clock, Lines, Release and Served: processes are woken;
--                Booted: the start. Good: the states in which the nucleus is entered and left; SafeSched,
--                Moved, SafeCalls, SafeClock, SafeSyscalls, SafeInterrupts and SafeEntry: each entry ends
--                in such a state; Reach: nucleus and machine as a step relation, without creation and
--                termination. Gone, Off, Ended,
--                After, Subtree, Cut, Children, Over and Terminated: the end of a process with all below
--                it.
--   Support      Defs and Stack: src/initSupp.c; Console: src/supportSystemCalls.c and the support
--                level's handlers in src/sysSupport.c; Writes, Reads and Ends prove.
--   Users        src/p3test.c: the process that starts the user processes.
--   Vm           src/vmSupport.c, and the page search and TLB refill of src/sysSupport.c. Faults: the
--                page fault handler; Pool and PageFault: the frames of the valid pages; Frames, Pages,
--                Transfers and Refill: the choice of a frame, page tables, transfers and the TLB.
--   Tests        the theorems at concrete inputs.
--
-- Correspondence. A C function of the name fooBar is the definition foo_bar. A struct type is a
-- record whose fields are maps from addresses, one for each field of the struct, so that a write of
-- p->f changes the map f at p and no other. An address is a number, 0 is NULL, and i + 1 stands for
-- the i-th entry of the static table that is pointed into; reading or writing through NULL is a
-- fault. A function that is given a pcb_t** is given the pointer's value and returns the new one.
-- Code runs in a state and error monad (Base/Control.antt): a run returns, leaves the nucleus by one of
-- the primitives that do not return (LDST, LDCXT, HALT, PANIC, WAIT, a SYSCALL raised by the nucleus
-- itself), faults, or is out of fuel. An int is a mathematical integer, since its overflow is
-- undefined in C; registers are words modulo 2 ^ 32.
--
-- Fuel and bounds. A process queue, a list of children and the list of active semaphores hold at most
-- the forty entries of their table, so a walk along one takes forty rounds (forty-two with the
-- sentinels). A tree of processes is at most forty deep and has at most forty processes: fuel of one
-- more is proved enough for the recursion and for the loop over the children. The loops that print or read a string run
-- until the string or the device ends them; their fuel is an argument, and a round for each character
-- and one more are proved enough.
--
-- Parameters. What the headers of uMPS3 define (register numbers, exception codes, interrupt lines,
-- fields of page table entries, the TLB's probe) is a record, Arch or Mmu, with the manual's values
-- as hypotheses where a theorem needs them. Each read of the clock takes the next value of a
-- sequence that the environment chooses, and so does each wait on a terminal or a printer.
--
-- Not modelled: the test programs p1test.c and p2test.c and the sample user programs. The switching
-- off of interrupts around a change of the swap structures has no counterpart, since the pager's
-- state has no status register. While the pager waits for a device it holds the swap semaphore, and
-- no other process is taken to change the swap structures.
pub mod Base
pub mod Pcb
pub mod Asl
pub mod Nucleus
pub mod Support
pub mod Vm
pub mod Users
pub mod Tests
