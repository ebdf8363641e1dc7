-- ===== src/Tests/Entries.antt =====
-- Entries to the nucleus: the process 3 runs, 4 is ready, and 1 and 2 wait.
use progetto_so.Base.{
  ℕ, ◌^◌, Bool, ◌≤◌, ◌<◌, ◌≡◌, ◌≢◌, refl, true, inr, [], ◌∷◌, arith, null, stop, Outcome, Ends-inv,
  Ends, ◌==◌, if◌then◌else◌,
}
use progetto_so.Asl.Defs.{max_add}
use progetto_so.Nucleus.Machine.{Kernel, copy_state, device_sem}
use progetto_so.Nucleus.Calls.{handle_nucleous_systemcalls}
use progetto_so.Nucleus.Interrupts.{first_bit, handle_interrupts}
use progetto_so.Nucleus.Lines.{is_device_line, place}
use progetto_so.Nucleus.Served.{has_received}
use progetto_so.Nucleus.Exceptions.{handle_exceptions}
use progetto_so.Nucleus.Good.{IsQueued, IsGood}
use progetto_so.Nucleus.SafeSyscalls.{IsCall, entered, syscall-Ends}
use progetto_so.Nucleus.SafeEntry.{IsLayout, IsInterrupt, IsEntry, interrupts-Ends}
use progetto_so.Nucleus.Reach.{Step, Reach, Reach-IsGood}
use progetto_so.Tests.Kernels.{arch, kernel}
use progetto_so.Tests.Waiting.{waiters}
use progetto_so.Tests.Calls.{sleeping, sleeping-IsKernel, printer}

-- The process calls P on the semaphore at 100, on which two processes wait.
abbrev calling : Kernel
calling = record (sleeping 100 0 0 0) {
  cause = 32;
  bios_data_page = record (kernel.bios_data_page) {
    gpr = λ r. if r == 3 then 3 else if r == 4 then 100 else 0;
  };
}

calling-IsQueued : IsQueued calling (waiters 100) (4 ∷ [])
calling-IsQueued =
    let h = sleeping-IsKernel 100 0 0 0 (omega arith) (omega arith) in
    record {
      kernel = record { waiting = h.waiting; ready = h.ready; apart = h.apart };
      pool = λ q i. ground arith;
    }

calling-IsCall : IsCall arch (entered arch calling 3) 3 3
unfolding copy_state
calling-IsCall = record {
  not_create = omega arith;
  not_terminate = omega arith;
  semaphore = λ _. (omega arith, omega arith);
  device = λ e. absurd (omega (arith, e));
  clock = omega arith;
}

syscall-Ends_example : Ends IsGood (handle_nucleous_systemcalls arch calling)
syscall-Ends_example =
    syscall-Ends arch calling (waiters 100) (4 ∷ []) 3 calling-IsQueued
      (omega arith, omega arith, (refl, λ b. ground arith)) refl (inr calling-IsCall)

arch-IsLayout : IsLayout arch
arch-IsLayout = record {
  disk = refl;
  flash = refl;
  network = refl;
  printer = refl;
  terminal = refl;
  clock = omega arith;
}

-- The printers' line is pending, with the device 2, for which two processes wait.
abbrev printing : Kernel
printing = record (sleeping printer 0 0 0) { cause = 2 ^ 14 }

printing-IsGood : IsGood printing
printing-IsGood =
    let h = sleeping-IsKernel printer 0 0 0 (omega arith) (omega arith) in
    record {
      queues = waiters printer;
      ready = 4 ∷ [];
      queued = record {
        kernel = record { waiting = h.waiting; ready = h.ready; apart = h.apart };
        pool = λ q i. ground arith;
      };
      running = inr (omega arith, omega arith, (refl, λ b. ground arith));
    }

place_in_range :
    (line : ℕ) (recv : Bool)
    → is_device_line arch line ≡ true
    → (device_sem arch (place arch line 2 recv) ≢ null)
      × (device_sem arch (place arch line 2 recv) < max_add)
place_in_range line recv valid = let low : line ≤ 7 = ground (arith, valid) in ground (arith, low)

printing-IsInterrupt : IsInterrupt arch printing
unfolding first_bit
printing-IsInterrupt line is_pending valid =
    place_in_range line (has_received arch printing line 2) valid

interrupts-Ends_example : Ends IsGood (handle_interrupts arch printing)
interrupts-Ends_example =
    interrupts-Ends arch printing arch-IsLayout printing-IsGood printing-IsInterrupt

-- The call is served; then the clock goes on.
calling-run : (o : Outcome) × (t : Kernel) × (handle_exceptions arch calling ≡ stop o t)
unfolding handle_exceptions
calling-run = Ends-inv (
    syscall-Ends arch calling (waiters 100) (4 ∷ []) 3 calling-IsQueued
      (omega arith, omega arith, (refl, λ b. ground arith)) refl (inr calling-IsCall))

abbrev later : Kernel
later = record (calling-run.1) { timer = 7 }

calling-IsEntry : IsEntry arch calling
calling-IsEntry = inr (omega arith, omega arith, λ _. inr calling-IsCall)

Reach-IsGood_example : IsGood later
Reach-IsGood_example =
    Reach-IsGood arch calling later arch-IsLayout
      (record {
        queues = waiters 100;
        ready = 4 ∷ [];
        queued = calling-IsQueued;
        running = inr (omega arith, omega arith, (refl, λ b. ground arith));
      })
      (Reach.next (Reach.next Reach.here (Step.entry calling-IsEntry calling-run.2))
        (Step.machine (refl, refl, refl, refl, refl) refl))
