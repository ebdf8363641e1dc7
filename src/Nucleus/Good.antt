-- ===== src/Nucleus/Good.antt =====
-- The states in which the nucleus is entered and left.
use progetto_so.Base.{◌≤◌, ◌≡◌, ◌≢◌, ◌⊎◌, sym, ap, true, List, Ptr, null, has}
use mathlib.Core.Path.{subst}
use progetto_so.Pcb.Defs.{max_proc}
use progetto_so.Pcb.Ring.{IsQueue}
use progetto_so.Pcb.Frame.{IsQueue-frame}
use progetto_so.Asl.Defs.{Semds}
use progetto_so.Asl.Entries.{Represents}
use progetto_so.Asl.Same.{Represents-same}
use progetto_so.Nucleus.Machine.{Kernel}
use progetto_so.Nucleus.Switch.{procs}
use progetto_so.Nucleus.Waits.{IsKernel, Outside}

-- The queues are sound, and the ready processes are blocks of the table.
pub record IsQueued (k : Kernel) (f : Ptr → List Ptr) (xs : List Ptr) : Type 0 where
  pub kernel : IsKernel k f xs
  pub pool : (q : Ptr) → has q xs ≡ true → q ≤ max_proc

-- A block of the table, on no queue.
abbrev pub IsRunning : Ptr → (Ptr → List Ptr) → List Ptr → Type 0
IsRunning p f xs = (p ≢ null) × (p ≤ max_proc) × Outside p f xs

-- Each process is ready, waits on one semaphore, runs, or does none of these: never two of them.
pub record IsGood (k : Kernel) : Type 0 where
  pub queues : Ptr → List Ptr
  pub ready : List Ptr
  pub queued : IsQueued k queues ready
  pub running : (k.current_process ≡ null) ⊎ IsRunning k.current_process queues ready

-- The queues are where they were; the rest of the state may differ.
abbrev pub SameQueues : Kernel → Kernel → Type 0
SameQueues k t =
    (t.semds ≡ record k.semds { pcbs = procs t })
    × ((procs t).p_next ≡ (procs k).p_next)
    × ((procs t).p_prev ≡ (procs k).p_prev)
    × ((procs t).p_sem_add ≡ (procs k).p_sem_add)
    × (t.ready_queue ≡ k.ready_queue)

module _ (k t : Kernel) (f : Ptr → List Ptr) (xs : List Ptr) where
  pub IsKernel-same : IsKernel k f xs → SameQueues k t → IsKernel t f xs
  IsKernel-same h same = record {
    waiting =
        subst (λ (s : Semds). Represents s f) (sym same.0)
          (Represents-same k.semds (procs t) f h.waiting
            λ b q i. (ap (λ m. m q) same.1, ap (λ m. m q) same.2, ap (λ m. m q) same.3));
    ready =
        subst (λ tp. IsQueue (procs t).p_next (procs t).p_prev tp xs) (sym same.4)
          (IsQueue-frame (procs k).p_next (procs k).p_prev (procs t).p_next (procs t).p_prev
            k.ready_queue xs (λ q i. ap (λ m. m q) same.1) (λ q i. ap (λ m. m q) same.2) h.ready);
    apart = h.apart;
  }

  pub IsQueued-same : IsQueued k f xs → SameQueues k t → IsQueued t f xs
  IsQueued-same h same = record { kernel = IsKernel-same h.kernel same; pool = h.pool }

pub IsGood-same :
    (k t : Kernel) → IsGood k → SameQueues k t → t.current_process ≡ k.current_process → IsGood t
IsGood-same k t g same current = record {
  queues = g.queues;
  ready = g.ready;
  queued = IsQueued-same k t g.queues g.ready g.queued same;
  running = subst (λ p. (p ≡ null) ⊎ IsRunning p g.queues g.ready) (sym current) g.running;
}
