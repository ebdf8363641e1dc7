-- ===== src/Nucleus/SafeSyscalls.antt =====
-- `handleNucleousSystemcalls` of src/nucleousSystemCalls.c ends without a fault and keeps the queues.
use progetto_so.Base.{
  ℕ, ◌+◌, ◌<◌, ◌≡◌, ◌≢◌, ◌⊎◌, refl, true, false, inl, inr, Bool-cases, List, arith, Ptr, null,
  update, Cmd, Ends, Ends-and_then, ◌==◌, if◌then◌else◌,
}
use mathlib.Core.Path.{subst, sym}
use progetto_so.Asl.Defs.{max_add}
use progetto_so.Nucleus.Machine.{Arch, Kernel, word, clock_semaphore, copy_state}
use progetto_so.Nucleus.Calls.{dispatch, handle_nucleous_systemcalls}
use progetto_so.Nucleus.Lines.{is_device_line}
use progetto_so.Nucleus.Switch.{procs}
use progetto_so.Nucleus.WaitIo.{asked_sem}
use progetto_so.Nucleus.Good.{IsQueued, IsRunning, IsGood, IsQueued-same}
use progetto_so.Nucleus.SafeCalls.{passeren-Ends, verhogen-Ends, wait_for_io-Ends}
use progetto_so.Nucleus.SafeClock.{
  wait_for_clock-Ends, get_cpu_time-Ends, get_support_data-Ends, passup_or_die-Ends,
}

-- The calls on queues, with arguments that make sense: a semaphore is an address between those of the
-- sentinels, and a device is on one of the lines of the devices.
pub record IsCall (arch : Arch) (k : Kernel) (p : Ptr) (call : ℕ) : Type 0 where
  pub not_create : call ≢ 1
  pub not_terminate : call ≢ 2
  pub semaphore :
      (call ≡ 3) ⊎ (call ≡ 4)
      → (0 < ((procs k).p_s p).gpr arch.reg_a1) × (((procs k).p_s p).gpr arch.reg_a1 < max_add)
  pub device :
      call ≡ 5
      → (is_device_line arch (((procs k).p_s p).gpr arch.reg_a1) ≡ true)
        × (0 < asked_sem arch k p)
        × (asked_sem arch k p < max_add)
  pub clock : clock_semaphore arch < max_add

-- A test of the call's number.
test :
    (arch : Arch) (call n : ℕ) (then_do else_do : Cmd Kernel (Unit {0})) (k : Kernel)
    → (call ≡ n → Ends IsGood (then_do k))
    → (call ≢ n → Ends IsGood (else_do k))
    → Ends IsGood ((if call == n then then_do else else_do) k)
test arch call n then_do else_do k yes_do no_do = elim (Bool-cases (call == n)) [
  | inl h ↦ rw h (yes_do (ground arith))
  | inr h ↦ rw h (no_do (ground arith))
]

module _ (arch : Arch) (k : Kernel) (f : Ptr → List Ptr) (xs : List Ptr) (p : Ptr) where
  pub dispatch-Ends :
      (call : ℕ)
      → IsQueued k f xs
      → IsRunning p f xs
      → k.current_process ≡ p
      → IsCall arch k p call
      → Ends IsGood (dispatch arch call k)
  unfolding dispatch
  dispatch-Ends call h r is_p c =
      test arch call 1 _ _ k (λ e. absurd (c.not_create e))
        λ _.
          test arch call 2 _ _ k (λ e. absurd (c.not_terminate e))
            λ _.
              test arch call 3 _ _ k
                (λ e. let a = c.semaphore (inl e) in passeren-Ends arch k f xs p h r is_p a.0 a.1)
                λ _.
                  test arch call 4 _ _ k
                    (λ e.
                      let a = c.semaphore (inr e) in verhogen-Ends arch k f xs p h r is_p a.0 a.1)
                    λ _.
                      test arch call 5 _ _ k
                        (λ e.
                          let d = c.device e in wait_for_io-Ends arch k f xs p h r is_p d.0 d.1 d.2)
                        λ _.
                          test arch call 6 _ _ k (λ _. get_cpu_time-Ends arch k f xs p h r is_p)
                            λ _.
                              test arch call 7 _ _ k
                                (λ _. wait_for_clock-Ends arch k f xs p h r is_p c.clock)
                                λ _.
                                  test arch call 8 _ _ k
                                    (λ _. get_support_data-Ends arch k f xs p h r is_p)
                                    λ _. passup_or_die-Ends arch k f xs p 1 h r is_p

module _ (arch : Arch) (k : Kernel) (p : Ptr) where
  -- The block of the process holds its state at the call, which goes on behind it.
  abbrev pub entered : Kernel
  entered = record k {
    semds = record k.semds {
      pcbs = record (procs k) {
        p_s = update (procs k).p_s p (record (copy_state arch k.bios_data_page ((procs k).p_s p)) {
          pc_epc = word ((copy_state arch k.bios_data_page ((procs k).p_s p)).pc_epc + 4);
        });
      };
    };
  }

  syscall_run_kernel :
      k.current_process ≡ p
      → p ≢ null
      → arch.user_mode k.bios_data_page.status ≡ false
      → handle_nucleous_systemcalls arch k
        ≡ dispatch arch (k.bios_data_page.gpr arch.reg_a0) entered
  unfolding handle_nucleous_systemcalls
  syscall_run_kernel is_p real mode = ground arith

-- A system call of the running process, other than creation and termination of processes: without a
-- fault, and with all walks and loops ended, the handler leaves by one of the machine's primitives,
-- in a state in which the queues are sound and no process is on two of them or both runs and is on
-- one. In user mode the call is passed up, whatever its number and its arguments.
pub syscall-Ends :
    (arch : Arch) (k : Kernel) (f : Ptr → List Ptr) (xs : List Ptr) (p : Ptr)
    → IsQueued k f xs
    → IsRunning p f xs
    → k.current_process ≡ p
    → (arch.user_mode k.bios_data_page.status ≡ true)
      ⊎ IsCall arch (entered arch k p) p (k.bios_data_page.gpr arch.reg_a0)
    → Ends IsGood (handle_nucleous_systemcalls arch k)
unfolding handle_nucleous_systemcalls
syscall-Ends arch k f xs p h r is_p (inl user) =
    rw user (Ends-and_then (passup_or_die-Ends arch k f xs p 1 h r is_p) _)
syscall-Ends arch k f xs p h r is_p (inr c) =
    elim (Bool-cases (arch.user_mode k.bios_data_page.status)) [
      | inl user ↦ rw user (Ends-and_then (passup_or_die-Ends arch k f xs p 1 h r is_p) _)
      | inr kernel ↦
          subst (λ run. Ends IsGood run) (sym (syscall_run_kernel arch k p is_p r.0 kernel))
            (dispatch-Ends arch (entered arch k p) f xs p (k.bios_data_page.gpr arch.reg_a0)
              (IsQueued-same k (entered arch k p) f xs h (refl, refl, refl, refl, refl)) r is_p c)
    ]
