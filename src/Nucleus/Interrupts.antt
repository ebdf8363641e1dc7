-- ===== src/Nucleus/Interrupts.antt =====
-- src/interrupts.c.
use progetto_so.Base.{
  ℕ, zero, suc, ◌+◌, ◌-◌, ◌*◌, ◌/◌, ◌%◌, ◌^◌, ℤ, pos, ◌+ℤ◌, ◌-ℤ◌, ltb_ℤ, Bool, false, not, Ptr,
  null, update, ◌==◌, if◌then◌else◌, Cmd, ok, out_of_fuel, pure, get, leave, when, ◌>>=◌, ◌>>◌,
  Outcome,
}
use progetto_so.Pcb.Defs.{Pcbs, max_proc, set_state}
use progetto_so.Asl.Defs.{remove_blocked}
use progetto_so.Nucleus.Machine.{
  Arch, Kernel, to_int, copy_state, in_semds, in_procs, get_field, set_reg, stck, set_soft,
  set_start, set_timer, set_interval_timer, load_int, store_int, device_sem, clock_semaphore,
  set_status,
}
use progetto_so.Nucleus.Sched.{scheduler, update_time_and_switch}
use progetto_so.Nucleus.Calls.{current, make_ready, charge, get_sem_index}

-- The first of the `k` bits from `i` on that is set, or -1 as an unsigned word.
unfoldable pub first_bit : ℕ → ℕ → ℕ → ℕ
first_bit zero i bits = 2 ^ 32 - 1
first_bit (suc k) i bits =
    let later = first_bit k (i + 1) bits in if (bits / 2 ^ i) % 2 == 1 then i else later

module _ (arch : Arch) where
  unfoldable pub get_device_no_from_line : ℕ → Cmd Kernel ℕ
  unfolding first_bit
  get_device_no_from_line line = do
    bits ← get (λ k. k.dev_bitmap line)
    pure (first_bit arch.dev_per_int 0 bits)

  unfoldable pub terminal_is_recv : ℕ → Cmd Kernel Bool
  terminal_is_recv dev = do status ← get (λ k. k.recv_status dev); pure (not (status == arch.ready))

  unfoldable pub get_term_status : ℕ → Cmd Kernel ℕ
  unfolding terminal_is_recv
  get_term_status dev = do
    recv ← terminal_is_recv dev
    if recv then get (λ k. k.recv_status dev) else get (λ k. k.transm_status dev)

  unfoldable pub acknowledge_term_interrupt : ℕ → Cmd Kernel (Unit {0})
  unfolding terminal_is_recv
  acknowledge_term_interrupt dev = do
    recv ← terminal_is_recv dev
    if recv
        then (λ k. ok tt (record k { recv_command = update k.recv_command dev arch.ack }))
        else (λ k. ok tt (record k { transm_command = update k.transm_command dev arch.ack }))

  unfoldable pub acknowledge_dtp_interrupt : ℕ → ℕ → Cmd Kernel (Unit {0})
  acknowledge_dtp_interrupt line dev k = ok tt (record k {
    dtp_command = update k.dtp_command line (update (k.dtp_command line) dev arch.ack);
  })

  -- `releaseSemAndUpdateStatus`.
  unfoldable pub release_sem_and_update_status : ℕ → ℕ → Cmd Kernel (Unit {0})
  release_sem_and_update_status index status = do
    soft ← get (λ k. k.soft_blocked_count)
    set_soft (soft -ℤ pos 1)
    n ← load_int (device_sem arch index)
    when (ltb_ℤ n (pos 1)) (do
      tmp ← in_semds (remove_blocked (device_sem arch index))
      when (not (tmp == null)) (do
        set_reg arch.reg_v0 tmp status
        make_ready tmp
        n' ← load_int (device_sem arch index)
        store_int (device_sem arch index) (n' +ℤ pos 1)))

  unfoldable pub handle_plt_interrupt : ℤ → Cmd Kernel (Unit {0})
  handle_plt_interrupt stop_t = do
    scale ← get (λ k. k.time_scale)
    set_timer (5000 * scale % 2 ^ 32)
    p ← current
    if p == null then leave Outcome.panic else do
      charge p stop_t
      saved ← get (λ k. k.bios_data_page)
      old ← get_field Pcbs.p_s p
      in_procs (set_state p (copy_state arch saved old))
      make_ready p
      scheduler arch

  -- The `while` of `handleIntervalTimerInterrupt`: each waiting process is made ready.
  unfoldable pub wake_loop : ℕ → Ptr → Cmd Kernel (Unit {0})
  wake_loop zero tmp = λ _. out_of_fuel
  wake_loop (suc k) tmp = if tmp == null then pure tt else do
    make_ready tmp
    soft ← get (λ s. s.soft_blocked_count)
    set_soft (soft -ℤ pos 1)
    next ← in_semds (remove_blocked (clock_semaphore arch))
    wake_loop k next

  unfoldable pub handle_interval_timer_interrupt : Cmd Kernel (Unit {0})
  unfolding wake_loop
  handle_interval_timer_interrupt = do
    set_interval_timer 100000
    tmp ← in_semds (remove_blocked (clock_semaphore arch))
    wake_loop (max_proc + 1) tmp
    store_int (clock_semaphore arch) (pos 0)

  -- The status of the device, acknowledged, and whether a terminal has received.
  unfoldable pub status_and_ack : ℕ → ℕ → Cmd Kernel (Bool × ℕ)
  status_and_ack line dev =
      if line == arch.term_int
      then (do
        recv ← terminal_is_recv dev
        saved ← get_term_status dev
        acknowledge_term_interrupt dev
        pure (recv, saved))
      else (do
        saved ← get (λ k. k.dtp_status line dev)
        acknowledge_dtp_interrupt line dev
        pure (false, saved))

  unfoldable pub handle_device_interrupt : ℕ → Cmd Kernel (Unit {0})
  handle_device_interrupt line = do
    dev ← get_device_no_from_line line
    (recv, saved) ← status_and_ack line dev
    index ← get_sem_index arch line dev recv
    release_sem_and_update_status index saved
    timer ← get (λ k. k.timer)
    set_start (to_int timer)

  -- The `if … else if …` of `handleInterrupts`: the pending line of the highest priority.
  unfoldable pub serve_line : ℕ → ℤ → Cmd Kernel (Unit {0})
  serve_line cause stop_t =
      if arch.ip_line cause 1
      then handle_plt_interrupt stop_t
      else if arch.ip_line cause 2
      then handle_interval_timer_interrupt
      else if arch.ip_line cause arch.disk_int
      then handle_device_interrupt arch.disk_int
      else if arch.ip_line cause arch.flash_int
      then handle_device_interrupt arch.flash_int
      else if arch.ip_line cause arch.netw_int
      then handle_device_interrupt arch.netw_int
      else if arch.ip_line cause arch.prnt_int
      then handle_device_interrupt arch.prnt_int
      else if arch.ip_line cause arch.term_int
      then handle_device_interrupt arch.term_int
      else pure tt

  unfoldable pub handle_interrupts : Cmd Kernel (Unit {0})
  handle_interrupts = do
    time_left ← get (λ k. k.timer)
    cause ← get (λ k. k.cause)
    stop_t ← stck
    when (arch.ip_any cause) (serve_line cause stop_t)
    p ← current
    if not (p == null)
        then (do
          charge p stop_t
          saved ← get (λ k. k.bios_data_page)
          old ← get_field Pcbs.p_s p
          in_procs (set_state p (copy_state arch saved old))
          update_time_and_switch p time_left)
        else scheduler arch

-- `disable_interrupts` and `enable_interrupts`: the lowest bit of the status is `IECON`.
unfoldable pub disable_interrupts : Cmd Kernel (Unit {0})
disable_interrupts = do status ← get (λ k. k.status); set_status (status - status % 2)

unfoldable pub enable_interrupts : Cmd Kernel (Unit {0})
enable_interrupts = do status ← get (λ k. k.status); set_status (status - status % 2 + 1)
