-- ===== src/Nucleus/SafeEntry.antt =====
-- The entries to the nucleus: `handleInterrupts` of src/interrupts.c and `handleExceptions` of
-- src/exceptions.c.
use progetto_so.Base.{
  ℕ, ◌+◌, ◌<◌, ◌≡◌, ◌≢◌, ◌⊎◌, refl, Bool, true, false, inl, inr, arith, ℤ, ◌+ℤ◌, ◌-ℤ◌, Ptr, null,
  update, stop, Outcome, Cmd, get, Safe, goes_on, Ends, ends, Ends-Safe, Safe-Ends, ◌==◌, ◌||◌,
  ◌>>=◌, ◌>>◌, when, not, if◌then◌else◌,
}
use mathlib.Core.Path.{subst, sym}
use progetto_so.Pcb.Defs.{Pcbs, set_state}
use progetto_so.Asl.Defs.{max_add}
use progetto_so.Nucleus.Machine.{Arch, Kernel, clock_semaphore, copy_state, in_procs, get_field}
use progetto_so.Nucleus.Sched.{scheduler, update_time_and_switch}
use progetto_so.Nucleus.Calls.{current, charge}
use progetto_so.Nucleus.Interrupts.{serve_line, handle_interrupts}
use progetto_so.Nucleus.Exceptions.{tlb_exception_handler, handle_exceptions}
use progetto_so.Nucleus.Lines.{is_device_line}
use progetto_so.Nucleus.Switch.{procs}
use progetto_so.Nucleus.Good.{IsRunning, IsGood, IsGood-same}
use progetto_so.Nucleus.SafeSched.{scheduler-Ends}
use progetto_so.Nucleus.SafeCalls.{runs_on}
use progetto_so.Nucleus.SafeClock.{passup_or_die-Ends}
use progetto_so.Nucleus.SafeSyscalls.{IsCall, entered, syscall-Ends}
use progetto_so.Nucleus.SafeInterrupts.{InRange, plt-Ends, interval_timer-Safe, device-Safe}

-- The lines of the machine, each a line of devices, and the addresses of the device semaphores.
pub record IsLayout (arch : Arch) : Type 0 where
  pub disk : is_device_line arch arch.disk_int ≡ true
  pub flash : is_device_line arch arch.flash_int ≡ true
  pub network : is_device_line arch arch.netw_int ≡ true
  pub printer : is_device_line arch arch.prnt_int ≡ true
  pub terminal : is_device_line arch arch.term_int ≡ true
  pub clock : clock_semaphore arch < max_add

-- On each pending line of devices one of the line's devices is pending.
abbrev pub IsInterrupt : Arch → Kernel → Type 0
IsInterrupt arch k =
    (line : ℕ)
    → arch.ip_line k.cause line ≡ true
    → is_device_line arch line ≡ true
    → InRange arch k line

branch :
    (b : Bool) (then_do else_do : Cmd Kernel (Unit {0})) (k : Kernel)
    → (b ≡ true → Safe IsGood (then_do k))
    → (b ≡ false → Safe IsGood (else_do k))
    → Safe IsGood ((if b then then_do else else_do) k)
branch true then_do else_do k f g = f refl
branch false then_do else_do k f g = g refl

module _ (arch : Arch) (k : Kernel) (layout : IsLayout arch) where
  serve_line-Safe :
      (stop_t : ℤ) → IsGood k → IsInterrupt arch k → Safe IsGood (serve_line arch k.cause stop_t k)
  unfolding serve_line
  serve_line-Safe stop_t g i =
      branch (arch.ip_line k.cause 1) _ _ k (λ _. Ends-Safe (plt-Ends arch k stop_t g))
        λ _.
          branch (arch.ip_line k.cause 2) _ _ k (λ _. interval_timer-Safe arch k g layout.clock)
            λ _.
              branch (arch.ip_line k.cause arch.disk_int) _ _ k
                (λ p.
                  device-Safe arch k arch.disk_int g layout.disk (i arch.disk_int p layout.disk))
                λ _.
                  branch (arch.ip_line k.cause arch.flash_int) _ _ k
                    (λ p.
                      device-Safe arch k arch.flash_int g layout.flash
                        (i arch.flash_int p layout.flash))
                    λ _.
                      branch (arch.ip_line k.cause arch.netw_int) _ _ k
                        (λ p.
                          device-Safe arch k arch.netw_int g layout.network
                            (i arch.netw_int p layout.network))
                        λ _.
                          branch (arch.ip_line k.cause arch.prnt_int) _ _ k
                            (λ p.
                              device-Safe arch k arch.prnt_int g layout.printer
                                (i arch.prnt_int p layout.printer))
                            λ _.
                              branch (arch.ip_line k.cause arch.term_int) _ _ k
                                (λ p.
                                  device-Safe arch k arch.term_int g layout.terminal
                                    (i arch.term_int p layout.terminal))
                                λ _. goes_on g

  serve_when-Safe :
      (b : Bool) (stop_t : ℤ)
      → IsGood k
      → IsInterrupt arch k
      → Safe IsGood (when b (serve_line arch k.cause stop_t) k)
  serve_when-Safe true stop_t g i = serve_line-Safe stop_t g i
  serve_when-Safe false stop_t g i = goes_on g

-- The end of `handleInterrupts`, behind the service of the line.
abbrev resume : Arch → ℤ → ℕ → Cmd Kernel (Unit {0})
resume arch stop_t time_left = do
  p ← current
  if not (p == null)
      then (do
        charge p stop_t
        saved ← get (λ k. k.bios_data_page)
        old ← get_field Pcbs.p_s p
        in_procs (set_state p (copy_state arch saved old))
        update_time_and_switch p time_left)
      else scheduler arch

-- The interrupted process goes on, charged and with its state saved.
abbrev resumed : Arch → Kernel → Ptr → ℤ → ℕ → Kernel
resumed arch k p stop_t time_left = record k {
  semds = record k.semds {
    pcbs = record (procs k) {
      p_time = update (procs k).p_time p ((procs k).p_time p +ℤ (stop_t -ℤ k.start_t));
      p_s = update (procs k).p_s p (copy_state arch k.bios_data_page ((procs k).p_s p));
    };
  };
  start_t = k.tod k.tod_reads;
  tod_reads = k.tod_reads + 1;
  timer = time_left;
  current_process = p;
}

resume_run_idle :
    (arch : Arch) (k : Kernel) (stop_t : ℤ) (time_left : ℕ)
    → k.current_process ≡ null
    → resume arch stop_t time_left k ≡ scheduler arch k
resume_run_idle arch k stop_t time_left none = ground arith

resume_run :
    (arch : Arch) (k : Kernel) (p : Ptr) (stop_t : ℤ) (time_left : ℕ)
    → k.current_process ≡ p
    → p ≢ null
    → resume arch stop_t time_left k
      ≡ stop (Outcome.load_state p) (resumed arch k p stop_t time_left)
unfolding update_time_and_switch
resume_run arch k p stop_t time_left is_p real = ground arith

resume-Ends :
    (arch : Arch) (k : Kernel) (stop_t : ℤ) (time_left : ℕ)
    → IsGood k
    → Ends IsGood (resume arch stop_t time_left k)
resume-Ends arch k stop_t time_left g = elim g.running [
  | inl none ↦
      subst (λ r. Ends IsGood r) (sym (resume_run_idle arch k stop_t time_left none))
        (scheduler-Ends arch k g.queues g.ready g.queued (λ _. none))
  | inr r ↦
      let p = k.current_process in
      subst (λ r. Ends IsGood r) (sym (resume_run arch k p stop_t time_left refl r.0))
        (ends (
          runs_on arch k g.queues g.ready p (resumed arch k p stop_t time_left) g.queued r
            (refl, refl, refl, refl, refl) refl))
]

-- An interrupt, with a process running or none: every loop of the handlers ends, nothing faults, and
-- the nucleus is left by one of the machine's primitives in a state in which the queues are sound and
-- no process is on two of them or both runs and is on one.
pub interrupts-Ends :
    (arch : Arch) (k : Kernel)
    → IsLayout arch
    → IsGood k
    → IsInterrupt arch k
    → Ends IsGood (handle_interrupts arch k)
unfolding handle_interrupts
interrupts-Ends arch k layout g i =
    let k' : Kernel = record k { tod_reads = k.tod_reads + 1 } in
    let g' = IsGood-same k k' g (refl, refl, refl, refl, refl) refl in
    Safe-Ends (serve_when-Safe arch k' layout (arch.ip_any k.cause) (k.tod k.tod_reads) g' i)
      λ _ t good. resume-Ends arch t (k.tod k.tod_reads) k.timer good

-- What the machine and the running process owe the nucleus when it is entered: an interrupt comes
-- from a pending device; at any other exception a process runs; and a system call in kernel mode has
-- arguments that make sense, and neither creates nor terminates.
abbrev pub IsEntry : Arch → Kernel → Type 0
IsEntry arch k =
    (arch.get_exc_code k.cause ≡ arch.exc_int) × IsInterrupt arch k
    ⊎ (arch.get_exc_code k.cause ≢ arch.exc_int)
      × (k.current_process ≢ null)
      × (arch.get_exc_code k.cause ≡ arch.exc_sys
          → (arch.user_mode k.bios_data_page.status ≡ true)
            ⊎ IsCall arch (entered arch k k.current_process) k.current_process
                (k.bios_data_page.gpr arch.reg_a0))

choose :
    (b : Bool) (then_do else_do : Cmd Kernel (Unit {0})) (k : Kernel)
    → Safe IsGood (then_do k)
    → Safe IsGood (else_do k)
    → Safe IsGood ((if b then then_do else else_do) k)
choose b then_do else_do k f g = branch b then_do else_do k (λ _. f) (λ _. g)

-- Every entry to the nucleus from a good state ends, without a fault, in a good state.
pub exceptions-Safe :
    (arch : Arch) (k : Kernel)
    → IsLayout arch
    → IsGood k
    → IsEntry arch k
    → Safe IsGood (handle_exceptions arch k)
unfolding handle_exceptions tlb_exception_handler
exceptions-Safe arch k layout g (inl (is_int, i)) =
    let code : ℕ = arch.get_exc_code k.cause in
    branch (code == arch.exc_int) _ _ k (λ _. Ends-Safe (interrupts-Ends arch k layout g i))
      λ other. absurd (ground (arith, is_int, other))
exceptions-Safe arch k layout g (inr (other, real, call)) =
    let code : ℕ = arch.get_exc_code k.cause in
    let up = λ (kind : ℕ).
      Ends-Safe
        (passup_or_die-Ends arch k g.queues g.ready k.current_process kind g.queued runs refl) in
    branch (code == arch.exc_int) _ _ k (λ is_int. absurd (ground (arith, is_int, other)))
      λ _.
        choose ((code == arch.exc_mod) || (code == arch.exc_tlbl) || (code == arch.exc_tlbs)) _ _ k
          (up 0)
          (choose
            ((code == arch.exc_adel)
              || (code == arch.exc_ades)
              || (code == arch.exc_ibe)
              || (code == arch.exc_dbe))
            _ _ k (up 1)
            (branch (code == arch.exc_sys) _ _ k
              (λ is_sys. Ends-Safe (
                syscall-Ends arch k g.queues g.ready k.current_process g.queued runs refl
                  (call (ground (arith, is_sys)))))
              λ _.
                choose
                  ((code == arch.exc_bp)
                    || (code == arch.exc_ri)
                    || (code == arch.exc_cpu)
                    || (code == arch.exc_ov))
                  _ _ k (up 1) (goes_on g)))
  where
    runs : IsRunning k.current_process g.queues g.ready
    runs = elim g.running [ inl none ↦ absurd (real none) | inr r ↦ r ]
