-- ===== src/Nucleus/Calls.antt =====
-- src/nucleousSystemCalls.c, with `passupOrDie` of src/exceptions.c and `getSemIndex` of
-- src/interrupts.c.
use progetto_so.Base.{
  ℕ, zero, suc, ◌+◌, ◌-◌, ◌*◌, ◌^◌, ℤ, pos, ◌+ℤ◌, ◌-ℤ◌, ltb_ℤ, Bool, not, ◌||◌, Ptr, null,
  guard_ptr, update, ◌==◌, if◌then◌else◌, Cmd, out_of_fuel, pure, get, leave, when, ◌>>=◌, ◌>>◌,
  Outcome,
}
use progetto_so.Pcb.Defs.{
  Pcbs, max_proc, alloc_pcb, free_pcb, insert_proc_q, out_proc_q, insert_child, empty_child,
  remove_child, out_child, set_support, set_state, set_time,
}
use progetto_so.Asl.Defs.{insert_blocked, remove_blocked, out_blocked}
use progetto_so.Nucleus.Machine.{
  Arch, Kernel, word, int_word, copy_state, in_semds, in_procs, get_field, get_reg, set_reg, stck,
  set_current, set_ready, set_soft, set_start, set_mutex, load_int, store_int, device_sem,
  clock_semaphore, device_num,
}
use progetto_so.Nucleus.Sched.{load_process, scheduler}

abbrev pub current : Cmd Kernel Ptr
current = get (λ k. k.current_process)

-- `insertProcQ(&readyQueue, p)`.
abbrev pub make_ready : Ptr → Cmd Kernel (Unit {0})
make_ready p = do tp ← get (λ k. k.ready_queue); tp' ← in_procs (insert_proc_q tp p); set_ready tp'

-- The process is charged for the time since `startT`.
abbrev pub charge : Ptr → ℤ → Cmd Kernel (Unit {0})
charge p stop_t = do
  used ← get_field Pcbs.p_time p
  start_t ← get (λ k. k.start_t)
  in_procs (set_time p (used +ℤ (stop_t -ℤ start_t)))

unfoldable pub block_current_process_at : Ptr → Cmd Kernel (Unit {0})
block_current_process_at sem = do
  stop_t ← stck
  p ← current
  charge p stop_t
  in_semds (insert_blocked sem p)
  set_current null

-- One level of `terminate_Process_rec`'s loop over the children, `rec` being the call of itself.
unfoldable pub terminate_children : (Ptr → Cmd Kernel (Unit {0})) → ℕ → Ptr → Cmd Kernel (Unit {0})
terminate_children rec zero p = λ _. out_of_fuel
terminate_children rec (suc k) p = do
  childless ← in_procs (empty_child p)
  if childless
      then pure tt
      else do child ← in_procs (remove_child p); rec child; terminate_children rec k p

-- What becomes of one process, once its children are gone.
unfoldable pub terminate_one : Ptr → Cmd Kernel (Unit {0})
terminate_one p = do
  sem ← get_field Pcbs.p_sem_add p
  if not (sem == null)
      then (do n ← load_int sem; store_int sem (n +ℤ pos 1); in_semds (out_blocked p); pure tt)
      else (do tp ← get (λ k. k.ready_queue); (_, tp') ← in_procs (out_proc_q tp p); set_ready tp')
  in_procs (free_pcb p)

-- The fuel bounds the depth of the tree, and the number of children on each level.
unfoldable pub terminate_process_rec : ℕ → Ptr → Cmd Kernel (Unit {0})
unfolding terminate_children terminate_one
terminate_process_rec zero p = λ _. out_of_fuel
terminate_process_rec (suc k) p = if p == null then pure tt else do
  in_procs (out_child p)
  terminate_children (terminate_process_rec k) (max_proc + 1) p
  terminate_one p

-- `getSemIndex`, on unsigned words.
unfoldable pub get_sem_index : Arch → ℕ → ℕ → Bool → Cmd Kernel ℕ
get_sem_index arch line dev is_recv =
    if line == 2
    then pure (device_num - 1)
    else if (line == arch.disk_int)
        || (line == arch.flash_int)
        || (line == arch.netw_int)
        || (line == arch.prnt_int)
    then pure (word ((line - arch.disk_int) * 8 + dev))
    else if line == arch.term_int
    then pure (
        if is_recv
        then word ((line - arch.disk_int) * 8 + dev)
        else word ((line - arch.disk_int + 1) * 8 + dev))
    else leave Outcome.panic

-- `passupOrDie`: the exception is passed up to the support level, or the process is killed by a
-- system call of the nucleus to itself.
unfoldable pub passup_or_die : Arch → ℕ → Cmd Kernel (Unit {0})
passup_or_die arch kind = do
  p ← current
  support ← get_field Pcbs.p_support_struct p
  if not (support == null)
      then (λ k.
          let old = k.sup_except_state support in
          let saved = copy_state arch k.bios_data_page (old kind) in
          let ctx = k.sup_except_context support kind in
          leave (Outcome.load_context ctx.stack_ptr ctx.status ctx.pc) (record k {
            sup_except_state = update k.sup_except_state support (update old kind saved);
          }))
      else leave (Outcome.syscall 2)

module _ (arch : Arch) where
  unfoldable pub create_process : Cmd Kernel (Unit {0})
  create_process = do
    tmp ← in_procs alloc_pcb
    p ← current
    if tmp == null then set_reg arch.reg_v0 p (2 ^ 32 - 1) else (do
      source ← get_reg arch.reg_a1 p
      guard_ptr source
      given ← get (λ k. k.states source)
      old ← get_field Pcbs.p_s tmp
      in_procs (set_state tmp (copy_state arch given old))
      support ← get_reg arch.reg_a2 p
      when (not (support == null)) (in_procs (set_support tmp support))
      make_ready tmp
      in_procs (insert_child p tmp)
      set_reg arch.reg_v0 p 0)
    load_process p

  unfoldable pub terminate_process : Ptr → Cmd Kernel (Unit {0})
  unfolding terminate_process_rec scheduler
  terminate_process p = do terminate_process_rec (max_proc + 1) p; scheduler arch

  unfoldable pub passeren : Cmd Kernel (Unit {0})
  passeren = do
    p ← current
    sem ← get_reg arch.reg_a1 p
    set_mutex sem
    n ← load_int sem
    store_int sem (n -ℤ pos 1)
    if ltb_ℤ (n -ℤ pos 1) (pos 0)
        then (do block_current_process_at sem; scheduler arch)
        else load_process p

  unfoldable pub verhogen : Cmd Kernel (Unit {0})
  verhogen = do
    p ← current
    sem ← get_reg arch.reg_a1 p
    set_mutex sem
    n ← load_int sem
    store_int sem (n +ℤ pos 1)
    tmp ← in_semds (remove_blocked sem)
    when (not (tmp == null)) (make_ready tmp)
    load_process p

  unfoldable pub wait_for_io : Cmd Kernel (Unit {0})
  wait_for_io = do
    p ← current
    line ← get_reg arch.reg_a1 p
    dev ← get_reg arch.reg_a2 p
    recv ← get_reg arch.reg_a3 p
    index ← get_sem_index arch line dev (not (recv == 0))
    n ← load_int (device_sem arch index)
    store_int (device_sem arch index) (n -ℤ pos 1)
    soft ← get (λ k. k.soft_blocked_count)
    set_soft (soft +ℤ pos 1)
    block_current_process_at (device_sem arch index)
    scheduler arch

  unfoldable pub get_cpu_time : Cmd Kernel (Unit {0})
  get_cpu_time = do
    stop_t ← stck
    p ← current
    charge p stop_t
    time ← get_field Pcbs.p_time p
    set_reg arch.reg_v0 p (int_word time)
    set_start stop_t
    load_process p

  unfoldable pub wait_for_clock : Cmd Kernel (Unit {0})
  wait_for_clock = do
    n ← load_int (clock_semaphore arch)
    store_int (clock_semaphore arch) (n -ℤ pos 1)
    when (ltb_ℤ (n -ℤ pos 1) (pos 0)) (do
      soft ← get (λ k. k.soft_blocked_count)
      set_soft (soft +ℤ pos 1)
      block_current_process_at (clock_semaphore arch)
      scheduler arch)
    p ← current
    load_process p

  unfoldable pub get_support_data : Cmd Kernel (Unit {0})
  get_support_data = do
    p ← current
    support ← get_field Pcbs.p_support_struct p
    set_reg arch.reg_v0 p support
    load_process p

  -- The `switch` of `handleNucleousSystemcalls`.
  unfoldable pub dispatch : ℕ → Cmd Kernel (Unit {0})
  dispatch call =
      if call == 1
      then create_process
      else if call == 2
      then (do p ← current; terminate_process p)
      else if call == 3
      then passeren
      else if call == 4
      then verhogen
      else if call == 5
      then wait_for_io
      else if call == 6
      then get_cpu_time
      else if call == 7
      then wait_for_clock
      else if call == 8
      then get_support_data
      else passup_or_die arch 1

  unfoldable pub handle_nucleous_systemcalls : Cmd Kernel (Unit {0})
  handle_nucleous_systemcalls = do
    system_state ← get (λ k. k.bios_data_page)
    when (arch.user_mode system_state.status) (passup_or_die arch 1)
    p ← current
    old ← get_field Pcbs.p_s p
    let saved = copy_state arch system_state old
    in_procs (set_state p (record saved { pc_epc = word (saved.pc_epc + 4) }))
    dispatch (system_state.gpr arch.reg_a0)
