-- ===== src/Nucleus/Passeren.antt =====
-- `passeren` of src/nucleousSystemCalls.c.
use progetto_so.Base.{
  ◌≤◌, ◌<◌, ◌≡◌, ◌≢◌, refl, ap, Bool, true, false, List, ◌∷◌, arith, pos, ◌-ℤ◌, ltb_ℤ, Ptr, null,
  update, ok, stop, Outcome, Leaves, left, Leaves-weaken, Returns-inv,
}
use progetto_so.Pcb.Defs.{max_proc}
use progetto_so.Asl.Defs.{Semds, max_add, insert_blocked}
use progetto_so.Asl.Blocked.{enqueued}
use progetto_so.Nucleus.Machine.{Arch, Kernel}
use progetto_so.Nucleus.Sched.{scheduler, load_process}
use progetto_so.Nucleus.Calls.{passeren, block_current_process_at}
use progetto_so.Nucleus.Switch.{procs, Runs}
use progetto_so.Nucleus.Block.{charged, blocked, blocks}
use progetto_so.Nucleus.Waits.{IsKernel, Outside, scheduler-IsKernel}

-- The semaphore is decremented.
abbrev pub lowered : Kernel → Ptr → Kernel
lowered k a = record k { mutex = a; ints = update k.ints a (k.ints a -ℤ pos 1) }

pub passeren_run_blocks :
    (arch : Arch) (k : Kernel) (p a : Ptr) (full : Bool) (s : Semds)
    → k.current_process ≡ p
    → p ≢ null
    → ((procs k).p_s p).gpr arch.reg_a1 ≡ a
    → a ≢ null
    → ltb_ℤ (k.ints a -ℤ pos 1) (pos 0) ≡ true
    → insert_blocked a p (charged k p) ≡ ok full s
    → passeren arch k ≡ scheduler arch (blocked (lowered k a) s)
unfolding passeren block_current_process_at
passeren_run_blocks arch k p a full s is_p real reg real_a below run = ground arith

pub passeren_run_goes_on :
    (arch : Arch) (k : Kernel) (p a : Ptr)
    → k.current_process ≡ p
    → p ≢ null
    → ((procs k).p_s p).gpr arch.reg_a1 ≡ a
    → a ≢ null
    → ltb_ℤ (k.ints a -ℤ pos 1) (pos 0) ≡ false
    → passeren arch k ≡ stop (Outcome.load_state p) (record (lowered k a) { current_process = p })
unfolding passeren load_process
passeren_run_goes_on arch k p a is_p real reg real_a above = ground arith

-- P on a semaphore that is not positive: the running process is blocked behind the others that wait
-- on it, and the process that has been ready longest is loaded for a time slice; the semaphore is
-- one less, and no other process is moved. The semaphore's address is between those of the
-- sentinels, and the running process is one of the forty and waits nowhere.
pub passeren-blocks :
    (arch : Arch) (k : Kernel) (f : Ptr → List Ptr) (p a x : Ptr) (xs : List Ptr)
    → IsKernel k f (x ∷ xs)
    → k.current_process ≡ p
    → p ≢ null
    → p ≤ max_proc
    → Outside p f (x ∷ xs)
    → ((procs k).p_s p).gpr arch.reg_a1 ≡ a
    → 0 < a
    → a < max_add
    → ltb_ℤ (k.ints a -ℤ pos 1) (pos 0) ≡ true
    → Leaves
        (Outcome.load_state x)
        (λ t.
          Runs x xs t
          × IsKernel t (enqueued f a p) xs
          × (t.ints ≡ update k.ints a (k.ints a -ℤ pos 1)))
        (passeren arch k)
passeren-blocks arch k f p a x xs h is_p real pool out reg positive below waits =
    let (full, s, run, after) = Returns-inv (
      blocks (lowered k a) f p a (x ∷ xs)
        (record { waiting = h.waiting; ready = h.ready; apart = h.apart }) real pool out positive
        below) in
    rw (passeren_run_blocks arch k p a full s is_p real reg (omega (arith, positive)) waits run) (
      Leaves-weaken (scheduler-IsKernel arch (blocked (lowered k a) s) (enqueued f a p) x xs after)
        λ t (runs, kernel, same, links). (runs, kernel, ap (λ (u : Kernel). u.ints) same))

-- P on a positive semaphore: it is one less, and the running process goes on; nothing else changes
-- but the record of the semaphore last used.
pub passeren-goes_on :
    (arch : Arch) (k : Kernel) (f : Ptr → List Ptr) (p a : Ptr) (xs : List Ptr)
    → IsKernel k f xs
    → k.current_process ≡ p
    → p ≢ null
    → ((procs k).p_s p).gpr arch.reg_a1 ≡ a
    → a ≢ null
    → ltb_ℤ (k.ints a -ℤ pos 1) (pos 0) ≡ false
    → Leaves
        (Outcome.load_state p)
        (λ t.
          IsKernel t f xs
          × (t.current_process ≡ p)
          × (t.ints ≡ update k.ints a (k.ints a -ℤ pos 1))
          × (procs t ≡ procs k))
        (passeren arch k)
passeren-goes_on arch k f p a xs h is_p real reg real_a above =
    rw (passeren_run_goes_on arch k p a is_p real reg real_a above)
      (left (record { waiting = h.waiting; ready = h.ready; apart = h.apart }, refl, refl, refl))
