-- ===== src/Nucleus/Sched.antt =====
-- src/scheduler.c.
use progetto_so.Base.{
  ℕ, Bool, false, ℤ, pos, ltb_ℤ, Ptr, null, guard_ptr, ◌==◌, if◌then◌else◌, Cmd, get, leave, ◌>>=◌,
  ◌>>◌, Outcome,
}
use progetto_so.Pcb.Defs.{remove_proc_q}
use progetto_so.Nucleus.Machine.{
  Arch, Kernel, in_procs, stck, set_current, set_ready, set_start, set_timer, set_status,
}

abbrev pub time_slice : ℕ
time_slice = 5000

unfoldable pub load_process : Ptr → Cmd Kernel (Unit {0})
load_process current = do set_current current; guard_ptr current; leave (Outcome.load_state current)

unfoldable pub update_time_and_switch : Ptr → ℕ → Cmd Kernel (Unit {0})
unfolding load_process
update_time_and_switch p time = do now ← stck; set_start now; set_timer time; load_process p

pub is_zero : ℤ → Bool
is_zero (pos n) = n == 0
is_zero _ = false

module _ (arch : Arch) where
  unfoldable pub set_status_for_waiting : Cmd Kernel (Unit {0})
  set_status_for_waiting = do set_timer 0xFFFFFFFF; set_status arch.waiting_status

  -- The part of `scheduler` that is reached with an empty ready queue.
  unfoldable pub nothing_ready : Cmd Kernel (Unit {0})
  unfolding is_zero set_status_for_waiting
  nothing_ready = do
    count ← get (λ k. k.semds.pcbs.process_count)
    if is_zero count then leave Outcome.halt else do
      soft ← get (λ k. k.soft_blocked_count)
      if ltb_ℤ (pos 0) soft
          then (do set_current null; set_status_for_waiting; leave Outcome.wait)
          else leave Outcome.panic

  unfoldable pub scheduler : Cmd Kernel (Unit {0})
  unfolding update_time_and_switch nothing_ready
  scheduler = do
    tp ← get (λ k. k.ready_queue)
    (p, tp') ← in_procs (remove_proc_q tp)
    set_ready tp'
    if p == null then nothing_ready else update_time_and_switch p time_slice
