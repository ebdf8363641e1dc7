-- ===== src/Tests/Kernels.antt =====
-- A nucleus on the machine as its manual describes it: the process 3 runs, 1 and 2 are ready.
use progetto_so.Base.{
  ◌+◌, ◌-◌, ◌/◌, ◌%◌, ◌^◌, ◌≡◌, refl, ◌⊎◌, ◌<◌, ℕ, true, false, [], ◌∷◌, arith, ◌==◌, not, pos,
  ◌+ℤ◌, ◌-ℤ◌, null, Leaves, Outcome,
}
use progetto_so.Pcb.Ring.{empty}
use progetto_so.Nucleus.Machine.{Arch, Kernel, device_num}
use progetto_so.Nucleus.Sched.{scheduler}
use progetto_so.Nucleus.Calls.{get_sem_index}
use progetto_so.Nucleus.Interrupts.{handle_plt_interrupt}
use progetto_so.Nucleus.Switch.{procs, Runs, scheduler_idle}
use progetto_so.Nucleus.Slice.{plt_interrupt-Runs}
use progetto_so.Nucleus.Devices.{get_sem_index_injective}
use progetto_so.Tests.Queues.{to_null, two, two-IsQueue}

abbrev pub arch : Arch
arch = record {
  state_gpr_len = 29;
  reg_a0 = 3;
  reg_a1 = 4;
  reg_a2 = 5;
  reg_a3 = 6;
  reg_v0 = 1;
  reg_t9 = 24;
  reg_sp = 26;
  exc_int = 0;
  exc_mod = 1;
  exc_tlbl = 2;
  exc_tlbs = 3;
  exc_adel = 4;
  exc_ades = 5;
  exc_ibe = 6;
  exc_dbe = 7;
  exc_sys = 8;
  exc_bp = 9;
  exc_ri = 10;
  exc_cpu = 11;
  exc_ov = 12;
  get_exc_code = λ cause. cause / 4 % 32;
  ip_any = λ cause. not (cause / 2 ^ 8 % 2 ^ 8 == 0);
  ip_line = λ cause line. cause / 2 ^ (line + 8) % 2 == 1;
  disk_int = 3;
  flash_int = 4;
  netw_int = 5;
  prnt_int = 6;
  term_int = 7;
  dev_per_int = 8;
  ready = 1;
  ack = 1;
  user_mode = λ status. status / 8 % 2 == 1;
  waiting_status = 0xFF01;
  first_status = 0x800FF01;
  device_semaphores = 0x20008000;
  utlb_refill_handler = 0x20003000;
  handle_exceptions = 0x20004000;
  test_phase_3 = 0x20002000;
}

abbrev pub kernel : Kernel
kernel = record {
  semds = record {
    s_next = to_null;
    s_sem_add = to_null;
    s_proc_q = to_null;
    semd_free_h = null;
    semd_h = null;
    pcbs = two;
  };
  ready_queue = 2;
  current_process = 3;
  soft_blocked_count = pos 0;
  start_t = pos 100;
  mutex = null;
  ints = λ _. pos 0;
  states = two.p_s;
  bios_data_page = two.p_s 0;
  sup_except_state = λ p _. two.p_s p;
  sup_except_context = λ _ _. record { stack_ptr = 0; status = 0; pc = 0 };
  tod = λ n. pos (1000 + n);
  tod_reads = 0;
  cause = 0;
  timer = 0;
  interval_timer = 0;
  status = 0;
  time_scale = 1;
  ram_top = 0;
  dev_bitmap = λ _. 0;
  dtp_status = λ _ _. 1;
  dtp_command = λ _ _. 0;
  recv_status = λ _. 1;
  recv_command = λ _. 0;
  transm_status = λ _. 1;
  transm_command = λ _. 0;
  passup_vector = record {
    tlb_refill_handler = 0;
    tlb_refill_stack_ptr = 0;
    exception_handler = 0;
    exception_stack_ptr = 0;
  };
}

abbrev idle : Kernel
idle = record kernel { ready_queue = null; soft_blocked_count = pos 1 }

scheduler_idle_example : Leaves Outcome.wait (λ t. procs t ≡ two) (scheduler arch idle)
scheduler_idle_example = scheduler_idle arch idle (empty refl)

plt_interrupt-Runs_example :
    Leaves
      (Outcome.load_state 1)
      (λ t. Runs 1 (2 ∷ 3 ∷ []) t × ((procs t).p_time 3 ≡ pos 0 +ℤ (pos 700 -ℤ pos 100)))
      (handle_plt_interrupt arch (pos 700) kernel)
plt_interrupt-Runs_example =
    plt_interrupt-Runs arch kernel 3 1 (1 ∷ 2 ∷ []) (2 ∷ 3 ∷ []) (pos 700) two-IsQueue refl
      (omega arith) refl refl

get_sem_index_injective_example :
    (13 < device_num - 1)
    × (◌≡◌ {A = ℕ} 4 4)
    × (◌≡◌ {A = ℕ} 5 5)
    × ((◌≡◌ {A = ℕ} 4 7 → ⊥) ⊎ (true ≡ false))
unfolding get_sem_index
get_sem_index_injective_example =
    get_sem_index_injective arch 4 5 4 5 13 true false kernel (omega arith) (omega arith)
      (omega arith) (omega arith) (omega arith) (omega arith) (omega arith) refl refl
