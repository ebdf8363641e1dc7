-- ===== src/Nucleus/Over.antt =====
-- `scheduler` of src/scheduler.c on the queues together with the free blocks.
use progetto_so.Base.{◌≡◌, ap, sym, List, [], ◌∷◌, ℤ, Ptr, Outcome, Leaves, Leaves-weaken}
use mathlib.Core.Path.{subst}
use progetto_so.Pcb.Defs.{Pcbs}
use progetto_so.Pcb.Ring.{empty}
use progetto_so.Pcb.Alloc.{IsFreeList}
use progetto_so.Asl.Defs.{Semds}
use progetto_so.Asl.Entries.{Represents}
use progetto_so.Nucleus.Machine.{Arch, Kernel}
use progetto_so.Nucleus.Sched.{scheduler}
use progetto_so.Nucleus.Switch.{procs, IsReady, idle_outcome, scheduler_idle_semds}
use progetto_so.Nucleus.Waits.{scheduler-IsKernel}
use progetto_so.Nucleus.Gone.{IsTable, IsFreeList-frame}

-- What the scheduler does, by the ready processes.
abbrev pub next_outcome : List Ptr → (count soft : ℤ) → Outcome
next_outcome [] count soft = idle_outcome count soft
next_outcome (x ∷ xs) count soft = Outcome.load_state x

abbrev pub behind_first : List Ptr → List Ptr
behind_first [] = []
behind_first (x ∷ xs) = xs

-- The queues and the free list after the scheduler has taken the first of the ready processes.
pub record IsOver (f : Ptr → List Ptr) (xs fs : List Ptr) (count : ℤ) (t : Kernel) : Type 0 where
  pub waiting : Represents t.semds f
  pub ready : IsReady t (behind_first xs)
  pub free : IsFreeList (procs t).p_next (procs t).p_prev (procs t).pcb_free_h fs
  pub counted : (procs t).process_count ≡ count

pub scheduler-IsOver :
    (arch : Arch) (k : Kernel) (f : Ptr → List Ptr) (xs fs : List Ptr)
    → IsTable k f xs fs
    → Leaves
        (next_outcome xs (procs k).process_count k.soft_blocked_count)
        (IsOver f xs fs (procs k).process_count)
        (scheduler arch k)
scheduler-IsOver arch k f [] fs h =
    Leaves-weaken (scheduler_idle_semds arch k h.queued.kernel.ready) λ t (same, none). record {
      waiting = subst (λ s. Represents s f) (sym same) h.queued.kernel.waiting;
      ready = empty none;
      free =
          subst (λ s. IsFreeList s.pcbs.p_next s.pcbs.p_prev s.pcbs.pcb_free_h fs) (sym same)
            h.free;
      counted = ap (λ (s : Semds). s.pcbs.process_count) same;
    }
scheduler-IsOver arch k f (x ∷ xs) fs h =
    Leaves-weaken (scheduler-IsKernel arch k f x xs h.queued.kernel)
      λ t (runs, kernel, same, links). record {
        waiting = kernel.waiting;
        ready = kernel.ready;
        free =
            subst (λ e. IsFreeList (procs t).p_next (procs t).p_prev e fs)
              (sym (ap (λ (c : Pcbs). c.pcb_free_h) links.rest))
              (IsFreeList-frame (procs k).p_next (procs k).p_prev (procs t).p_next (procs t).p_prev
                (procs k).pcb_free_h fs (λ q i. links.outside_next q (h.apart q i).0)
                (λ q i. links.outside_prev q (h.apart q i).0) h.free);
        counted = ap (λ (c : Pcbs). c.process_count) links.rest;
      }
