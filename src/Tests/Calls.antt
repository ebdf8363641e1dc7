-- ===== src/Tests/Calls.antt =====
-- System calls and interrupts of the nucleus: the process 3 runs, 4 is ready, and 1 and 2 wait.
use progetto_so.Base.{
  ◌≢◌, zero, suc, ℕ, ◌+◌, ◌≤◌, ◌<◌, ◌≡◌, ◌≢◌, refl, true, false, [], ◌∷◌, arith, pos, negsuc, ◌+ℤ◌,
  ◌-ℤ◌, Ptr, null, update, has, Leaves, Outcome, Returns, if◌then◌else◌, ◌==◌,
}
use progetto_so.Pcb.Ring.{ring}
use progetto_so.Asl.Defs.{max_add}
use progetto_so.Asl.Same.{Represents-same}
use progetto_so.Asl.Blocked.{enqueued}
use progetto_so.Nucleus.Machine.{Kernel, clock_semaphore, device_sem}
use progetto_so.Nucleus.Calls.{passeren, verhogen, wait_for_io}
use progetto_so.Nucleus.Interrupts.{
  handle_interval_timer_interrupt, handle_device_interrupt, first_bit,
}
use progetto_so.Nucleus.Switch.{procs, Runs}
use progetto_so.Nucleus.Waits.{IsKernel}
use progetto_so.Nucleus.Passeren.{passeren-blocks}
use progetto_so.Nucleus.Verhogen.{Raised, verhogen-Raised}
use progetto_so.Nucleus.Clock.{Ticked, interval_timer-Ticked}
use progetto_so.Nucleus.Devices.{bit}
use progetto_so.Nucleus.Served.{Served, device_interrupt-Served}
use progetto_so.Nucleus.WaitIo.{asking, wait_for_io-blocks}
use progetto_so.Nucleus.Signals.{AllReady, verhogen-wakes_all}
use progetto_so.Nucleus.Start.{main}
use progetto_so.Nucleus.Booted.{Booted, main-Booted}
use progetto_so.Tests.Queues.{two}
use progetto_so.Tests.Kernels.{arch, kernel}
use progetto_so.Tests.Waiting.{waiting, waiters, table, waiting-Represents}

-- The registers a1, a2 and a3 of every process hold the arguments.
abbrev pub sleeping : (a given dev recv : Ptr) → Kernel
sleeping a given dev recv = record kernel {
  semds = record (waiting a) {
    pcbs = record (table a) {
      p_s = λ _. record (two.p_s 0) {
        gpr = λ r. if r == 4 then given else if r == 5 then dev else if r == 6 then recv else 0;
      };
    };
  };
  ready_queue = 4;
  dev_bitmap = λ _. 12;
}

pub sleeping-IsKernel :
    (a given dev recv : Ptr)
    → 0 < a
    → a < max_add
    → IsKernel (sleeping a given dev recv) (waiters a) (4 ∷ [])
sleeping-IsKernel a given dev recv positive below =
    let r = waiting-Represents a positive below in
    record {
      waiting =
          Represents-same (waiting a) (procs (sleeping a given dev recv)) (waiters a) r
            (λ b q i. (refl, refl, refl));
      ready = ring {tp = 4} [] refl refl (refl, tt) (refl, refl);
      apart = λ b q i. ground arith;
    }

passeren-blocks_example :
    Leaves
      (Outcome.load_state 4)
      (λ t.
        Runs 4 [] t
        × IsKernel t (enqueued (waiters 100) 100 3) []
        × (t.ints ≡ update (λ _. pos 0) 100 (negsuc 0)))
      (passeren arch (sleeping 100 100 0 0))
unfolding progetto_so.Base.Int.◌-ℤ◌
passeren-blocks_example =
    passeren-blocks arch (sleeping 100 100 0 0) (waiters 100) 3 100 4 []
      (sleeping-IsKernel 100 100 0 0 (omega arith) (omega arith)) refl (omega arith) (omega arith)
      (refl, λ b. ground arith) refl (omega arith) (omega arith) refl

verhogen-Raised_example :
    Leaves
      (Outcome.load_state 3)
      (Raised (sleeping 100 100 0 0) (waiters 100) 3 100 (4 ∷ []) (1 ∷ 2 ∷ []))
      (verhogen arch (sleeping 100 100 0 0))
verhogen-Raised_example =
    verhogen-Raised arch (sleeping 100 100 0 0) (waiters 100) 3 100 (4 ∷ [])
      (sleeping-IsKernel 100 100 0 0 (omega arith) (omega arith)) refl (omega arith) refl
      (omega arith) (omega arith)

abbrev clock : Ptr
clock = clock_semaphore arch

interval_timer-Ticked_example :
    Returns
      (λ _ t. Ticked arch (sleeping clock 0 0 0) (waiters clock) (4 ∷ []) (1 ∷ 2 ∷ []) t)
      (handle_interval_timer_interrupt arch (sleeping clock 0 0 0))
interval_timer-Ticked_example =
    interval_timer-Ticked arch (sleeping clock 0 0 0) (waiters clock) (4 ∷ [])
      (sleeping-IsKernel clock 0 0 0 (omega arith) (omega arith)) (omega arith)

-- The device 2 of the printers' line; the device 3 is pending as well.
abbrev pub printer : Ptr
printer = device_sem arch 26

below_two : (j : ℕ) → j < 2 → bit j 12 ≢ 1
below_two zero h = omega arith
below_two (suc zero) h = omega arith
below_two (suc (suc j)) h = absurd (omega (arith, h))

device_interrupt-Served_example :
    Returns
      (λ _ t. Served arch (sleeping printer 0 0 0) (waiters printer) 6 2 (4 ∷ []) t)
      (handle_device_interrupt arch 6 (sleeping printer 0 0 0))
unfolding first_bit
device_interrupt-Served_example =
    device_interrupt-Served arch (sleeping printer 0 0 0) (waiters printer) 6 2 (4 ∷ [])
      (sleeping-IsKernel printer 0 0 0 (omega arith) (omega arith)) refl
      (omega arith, refl, λ j h. below_two j h) (omega arith) (omega arith)

wait_for_io-blocks_example :
    Leaves
      (Outcome.load_state 4)
      (λ t.
        Runs 4 [] t
        × IsKernel t (enqueued (waiters printer) printer 3) []
        × (t.ints ≡ (asking (sleeping printer 6 2 0) printer).ints)
        × (t.soft_blocked_count ≡ pos 0 +ℤ pos 1))
      (wait_for_io arch (sleeping printer 6 2 0))
wait_for_io-blocks_example =
    wait_for_io-blocks arch (sleeping printer 6 2 0) (waiters printer) 3 4 []
      (sleeping-IsKernel printer 6 2 0 (omega arith) (omega arith)) refl (omega arith) (omega arith)
      (refl, λ b. ground arith) refl (omega arith) (omega arith)

main-Booted_example : Leaves (Outcome.load_state 1) (Booted arch kernel) (main arch kernel)
main-Booted_example = main-Booted arch kernel

verhogen-wakes_all_example :
    AllReady arch 3 100 (waiters 100) (4 ∷ []) (1 ∷ 2 ∷ []) (sleeping 100 100 0 0)
verhogen-wakes_all_example =
    verhogen-wakes_all arch 3 100 (4 ∷ []) (waiters 100) (sleeping 100 100 0 0)
      (sleeping-IsKernel 100 100 0 0 (omega arith) (omega arith)) refl (omega arith) refl
      (omega arith) (omega arith)
