-- ===== src/Nucleus/WaitIo.antt =====
-- `waitForIO` of src/nucleousSystemCalls.c.
use progetto_so.Base.{
  ℕ, ◌≤◌, ◌<◌, ◌≡◌, ◌≢◌, refl, ap, Bool, true, List, ◌∷◌, arith, pos, ◌+ℤ◌, ◌-ℤ◌, Ptr, null, update,
  ok, Outcome, Leaves, Leaves-weaken, Returns-inv, ◌==◌, not,
}
use progetto_so.Pcb.Defs.{max_proc}
use progetto_so.Asl.Defs.{Semds, max_add, insert_blocked}
use progetto_so.Asl.Blocked.{enqueued}
use progetto_so.Nucleus.Machine.{Arch, Kernel, device_sem}
use progetto_so.Nucleus.Sched.{scheduler}
use progetto_so.Nucleus.Calls.{wait_for_io, block_current_process_at}
use progetto_so.Nucleus.Lines.{is_device_line, place, get_sem_index_lem}
use progetto_so.Nucleus.Switch.{procs, Runs}
use progetto_so.Nucleus.Block.{charged, blocked, blocks}
use progetto_so.Nucleus.Waits.{IsKernel, Outside, scheduler-IsKernel}

-- The device's semaphore is one less, and one process more waits for a device.
abbrev pub asking : Kernel → Ptr → Kernel
asking k a = record k {
  ints = update k.ints a (k.ints a -ℤ pos 1);
  soft_blocked_count = k.soft_blocked_count +ℤ pos 1;
}

-- The semaphore that the arguments of the system call name.
abbrev pub asked_sem : Arch → Kernel → Ptr → Ptr
asked_sem arch k p =
    let given = ((procs k).p_s p).gpr in
    device_sem arch
      (place arch (given arch.reg_a1) (given arch.reg_a2) (not (given arch.reg_a3 == 0)))

pub wait_for_io_run :
    (arch : Arch) (k : Kernel) (p a line dev recv : ℕ) (full : Bool) (s : Semds)
    → k.current_process ≡ p
    → p ≢ null
    → ((procs k).p_s p).gpr arch.reg_a1 ≡ line
    → ((procs k).p_s p).gpr arch.reg_a2 ≡ dev
    → ((procs k).p_s p).gpr arch.reg_a3 ≡ recv
    → is_device_line arch line ≡ true
    → device_sem arch (place arch line dev (not (recv == 0))) ≡ a
    → a ≢ null
    → insert_blocked a p (charged (asking k a) p) ≡ ok full s
    → wait_for_io arch k ≡ scheduler arch (blocked (asking k a) s)
unfolding wait_for_io block_current_process_at
wait_for_io_run arch k p a line dev recv full s is_p real is_line is_dev is_recv valid is_a real_a
      run =
    let index = get_sem_index_lem arch k line dev (not (recv == 0)) valid in ground arith

-- The system call that waits for a device always blocks the running process, behind those that wait
-- for the same side of the same device; `softBlockedCount` is one more, and the process that has
-- been ready longest is loaded for a time slice. The line is one of the devices or terminals,
-- and the running process is one of the forty and waits nowhere.
pub wait_for_io-blocks :
    (arch : Arch) (k : Kernel) (f : Ptr → List Ptr) (p x : Ptr) (xs : List Ptr)
    → IsKernel k f (x ∷ xs)
    → k.current_process ≡ p
    → p ≢ null
    → p ≤ max_proc
    → Outside p f (x ∷ xs)
    → is_device_line arch (((procs k).p_s p).gpr arch.reg_a1) ≡ true
    → 0 < asked_sem arch k p
    → asked_sem arch k p < max_add
    → Leaves
        (Outcome.load_state x)
        (λ t.
          Runs x xs t
          × IsKernel t (enqueued f (asked_sem arch k p) p) xs
          × (t.ints ≡ (asking k (asked_sem arch k p)).ints)
          × (t.soft_blocked_count ≡ k.soft_blocked_count +ℤ pos 1))
        (wait_for_io arch k)
wait_for_io-blocks arch k f p x xs h is_p real pool out valid positive below =
    let a = asked_sem arch k p in
    let (full, s, run, after) = Returns-inv (
      blocks (asking k a) f p a (x ∷ xs)
        (record { waiting = h.waiting; ready = h.ready; apart = h.apart }) real pool out positive
        below) in
    rw
      (wait_for_io_run arch k p a (((procs k).p_s p).gpr arch.reg_a1)
        (((procs k).p_s p).gpr arch.reg_a2) (((procs k).p_s p).gpr arch.reg_a3) full s is_p real
        refl refl refl valid refl (omega (arith, positive)) run)
      (Leaves-weaken (scheduler-IsKernel arch (blocked (asking k a) s) (enqueued f a p) x xs after)
        λ t (runs, kernel, same, links). (
          runs,
          kernel,
          ap (λ (u : Kernel). u.ints) same,
          ap (λ (u : Kernel). u.soft_blocked_count) same,
        ))
