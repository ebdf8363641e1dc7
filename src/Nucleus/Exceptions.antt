-- ===== src/Nucleus/Exceptions.antt =====
-- src/exceptions.c.
use progetto_so.Base.{◌||◌, ◌==◌, if◌then◌else◌, Cmd, pure, get, ◌>>=◌}
use progetto_so.Nucleus.Machine.{Arch, Kernel}
use progetto_so.Nucleus.Calls.{passup_or_die, handle_nucleous_systemcalls}
use progetto_so.Nucleus.Interrupts.{handle_interrupts}

module _ (arch : Arch) where
  unfoldable pub tlb_exception_handler : Cmd Kernel (Unit {0})
  tlb_exception_handler = passup_or_die arch 0

  unfoldable pub handle_exceptions : Cmd Kernel (Unit {0})
  unfolding tlb_exception_handler
  handle_exceptions = do
    cause ← get (λ k. k.cause)
    let code = arch.get_exc_code cause
    if code == arch.exc_int
        then handle_interrupts arch
        else if (code == arch.exc_mod) || (code == arch.exc_tlbl) || (code == arch.exc_tlbs)
        then tlb_exception_handler
        else if (code == arch.exc_adel)
            || (code == arch.exc_ades)
            || (code == arch.exc_ibe)
            || (code == arch.exc_dbe)
        then passup_or_die arch 1
        else if code == arch.exc_sys
        then handle_nucleous_systemcalls arch
        else if (code == arch.exc_bp)
            || (code == arch.exc_ri)
            || (code == arch.exc_cpu)
            || (code == arch.exc_ov)
        then passup_or_die arch 1
        else pure tt
