-- ===== src/Nucleus/Start.antt =====
-- src/init.c: `main`, the first process, the pass-up vector and the interval timer.
use progetto_so.Base.{
  ℕ, ok, pos, Ptr, null, not, ◌==◌, if◌then◌else◌, Cmd, get, leave, pure, ◌>>=◌, ◌>>◌, Outcome,
}
use progetto_so.Pcb.Defs.{
  Pcbs, alloc_pcb, init_pcbs, mk_empty_proc_q, set_state, set_time, set_sem_add, set_support,
}
use progetto_so.Asl.Defs.{init_asl}
use progetto_so.Nucleus.Machine.{
  Arch, Kernel, PassupVector, in_procs, in_semds, get_field, with_reg, set_current, set_ready,
  store_int, set_interval_timer, clock_semaphore,
}
use progetto_so.Nucleus.Sched.{scheduler}
use progetto_so.Nucleus.Calls.{make_ready}

unfoldable pub load_interval_timer : ℕ → Cmd Kernel (Unit {0})
load_interval_timer = set_interval_timer

abbrev pub nucleus_stackpage_top : ℕ
nucleus_stackpage_top = 0x20001000

module _ (arch : Arch) where
  abbrev pub handlers : PassupVector
  handlers = record {
    tlb_refill_handler = arch.utlb_refill_handler;
    tlb_refill_stack_ptr = nucleus_stackpage_top;
    exception_handler = arch.handle_exceptions;
    exception_stack_ptr = nucleus_stackpage_top;
  }

  unfoldable pub init_passup_vector : Cmd Kernel (Unit {0})
  init_passup_vector k = ok tt (record k { passup_vector = handlers })

  unfoldable pub init_first_process : Cmd Kernel Ptr
  init_first_process = do
    p ← in_procs alloc_pcb
    if not (p == null)
        then (do
          st ← get_field Pcbs.p_s p
          ram_top ← get (λ k. k.ram_top)
          let st' = with_reg arch.reg_sp ram_top (with_reg arch.reg_t9 arch.test_phase_3 st)
          in_procs
              (set_state p (record st' { pc_epc = arch.test_phase_3; status = arch.first_status }))
          in_procs (set_time p (pos 0))
          in_procs (set_sem_add p null)
          in_procs (set_support p null)
          make_ready p
          pure p)
        else leave Outcome.panic

  unfoldable pub main : Cmd Kernel (Unit {0})
  unfolding init_first_process init_passup_vector load_interval_timer
  main = do
    init_passup_vector
    in_procs init_pcbs
    in_semds init_asl
    set_current null
    set_ready mk_empty_proc_q
    store_int (clock_semaphore arch) (pos 0)
    load_interval_timer 100000
    init_first_process
    scheduler arch
