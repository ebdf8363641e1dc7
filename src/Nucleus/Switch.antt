-- ===== src/Nucleus/Switch.antt =====
-- Which process runs next: `scheduler`, and the end of a time slice.
use mathlib.Core.Path.{subst}
use progetto_so.Base.{
  zero, suc, negsuc, ◌≡◌, refl, ◌≢◌, List, [], ◌∷◌, arith, ℤ, pos, Ptr, null, Run, ok, stop,
  Outcome, Returns-inv, Leaves, Leaves-weaken, ap, left, ◌∙◌, ◌+◌,
}
use progetto_so.Pcb.Defs.{Pcbs, remove_proc_q}
use progetto_so.Pcb.Ring.{IsQueue, IsQueue-no_null}
use progetto_so.Pcb.Queue.{OnlyLinks, remove_proc_q-Dequeued}
use progetto_so.Asl.Defs.{Semds}
use progetto_so.Nucleus.Machine.{Arch, Kernel}
use progetto_so.Nucleus.Sched.{scheduler, time_slice}

abbrev pub procs : Kernel → Pcbs
procs k = k.semds.pcbs

-- The ready queue holds the blocks `xs`, oldest first.
abbrev pub IsReady : Kernel → List Ptr → Type 0
IsReady k xs = IsQueue (procs k).p_next (procs k).p_prev k.ready_queue xs

-- The process `x` is loaded for a time slice, with the others still waiting.
abbrev pub Runs : Ptr → List Ptr → Kernel → Type 0
Runs x xs t = (t.current_process ≡ x) × (t.timer ≡ time_slice) × IsReady t xs

scheduler_run :
    (arch : Arch) (k : Kernel) (x tp : Ptr) (t : Pcbs)
    → remove_proc_q k.ready_queue (procs k) ≡ ok (x, tp) t
    → x ≢ null
    → scheduler arch k
      ≡ stop (Outcome.load_state x) (record k {
        semds = record k.semds { pcbs = t };
        ready_queue = tp;
        start_t = k.tod k.tod_reads;
        tod_reads = k.tod_reads + 1;
        timer = time_slice;
        current_process = x;
      })
unfolding scheduler
scheduler_run arch k x tp t e h = ground arith

-- The state in which the process `x` is loaded: the rest of the nucleus is as it was.
abbrev pub switched : Kernel → Ptr → Kernel → Kernel
switched k x t = record k {
  semds = record k.semds { pcbs = procs t };
  ready_queue = t.ready_queue;
  start_t = k.tod k.tod_reads;
  tod_reads = k.tod_reads + 1;
  timer = time_slice;
  current_process = x;
}

pub scheduler-switches :
    (arch : Arch) (k : Kernel) (x : Ptr) (xs : List Ptr)
    → IsReady k (x ∷ xs)
    → Leaves
        (Outcome.load_state x)
        (λ t. IsReady t xs × OnlyLinks (x ∷ xs) (procs k) (procs t) × (t ≡ switched k x t))
        (scheduler arch k)
scheduler-switches arch k x xs q =
    let ((out, tp), t, e, post) =
      Returns-inv (remove_proc_q-Dequeued k.ready_queue (x ∷ xs) (procs k) q) in
    let no_null = IsQueue-no_null (procs k).p_next (procs k).p_prev k.ready_queue (x ∷ xs) q in
    rw
      (scheduler_run arch k x tp t
        (subst (λ o. remove_proc_q k.ready_queue (procs k) ≡ ok (o, tp) t) post.0 e) (ground arith))
      (left (post.1, post.2, refl))

-- With a process ready, `scheduler` loads the oldest for a time slice; the others stay in order, and
-- of the blocks only links of the queue are changed.
pub scheduler-Runs :
    (arch : Arch) (k : Kernel) (x : Ptr) (xs : List Ptr)
    → IsReady k (x ∷ xs)
    → Leaves
        (Outcome.load_state x)
        (λ t. Runs x xs t × OnlyLinks (x ∷ xs) (procs k) (procs t))
        (scheduler arch k)
scheduler-Runs arch k x xs q =
    Leaves-weaken (scheduler-switches arch k x xs q) λ t (ready, links, same). (
      (ap (λ (u : Kernel). u.current_process) same, ap (λ (u : Kernel). u.timer) same, ready),
      links,
    )

-- What an idle nucleus does, by the processes left and those that wait for a device.
abbrev pub idle_outcome : (count soft : ℤ) → Outcome
idle_outcome (pos zero) soft = Outcome.halt
idle_outcome _ (pos (suc n)) = Outcome.wait
idle_outcome _ _ = Outcome.panic

IdleRun : Arch → Kernel → ℤ → ℤ → Type 0
IdleRun arch k count soft =
    (procs k).process_count ≡ count
    → k.soft_blocked_count ≡ soft
    → remove_proc_q k.ready_queue (procs k) ≡ ok (null, null) (procs k)
    → (t : Kernel) × (scheduler arch k ≡ stop (idle_outcome count soft) t)
      × (t.semds ≡ k.semds)
      × (t.ready_queue ≡ null)

idle_state : Arch → Kernel → Kernel
idle_state arch k = record k {
  ready_queue = null;
  current_process = null;
  timer = 0xFFFFFFFF;
  status = arch.waiting_status;
}

idle_run : (arch : Arch) (k : Kernel) (count soft : ℤ) → IdleRun arch k count soft
unfolding scheduler IdleRun idle_state
idle_run arch k (pos zero) soft ec es e =
    (record k { ready_queue = null }, ground arith, refl, refl)
idle_run arch k (pos (suc n)) (pos zero) ec es e =
    (record k { ready_queue = null }, ground arith, refl, refl)
idle_run arch k (pos (suc n)) (pos (suc m)) ec es e = (idle_state arch k, ground arith, refl, refl)
idle_run arch k (pos (suc n)) (negsuc m) ec es e =
    (record k { ready_queue = null }, ground arith, refl, refl)
idle_run arch k (negsuc n) (pos zero) ec es e =
    (record k { ready_queue = null }, ground arith, refl, refl)
idle_run arch k (negsuc n) (pos (suc m)) ec es e = (idle_state arch k, ground arith, refl, refl)
idle_run arch k (negsuc n) (negsuc m) ec es e =
    (record k { ready_queue = null }, ground arith, refl, refl)

-- With no process ready, `scheduler` changes neither the blocks nor the semaphores.
pub scheduler_idle_semds :
    (arch : Arch) (k : Kernel)
    → IsReady k []
    → Leaves
        (idle_outcome (procs k).process_count k.soft_blocked_count)
        (λ t. (t.semds ≡ k.semds) × (t.ready_queue ≡ null))
        (scheduler arch k)
unfolding IdleRun
scheduler_idle_semds arch k q =
    let ((out, tp), t, e, post) =
      Returns-inv (remove_proc_q-Dequeued k.ready_queue [] (procs k) q) in
    let (t, run, same, none) =
      idle_run arch k (procs k).process_count k.soft_blocked_count refl refl
        (e ∙ empty_run out tp t post.0 post.1 post.2) in
    rw run (left (same, none))
  where
    empty_run :
        (o q : Ptr) (t : Pcbs)
        → o ≡ null
        → q ≡ null
        → t ≡ procs k
        → ◌≡◌ {A = Run Pcbs (Ptr × Ptr)} (ok (o, q) t) (ok (null, null) (procs k))
    empty_run o q t e₁ e₂ e₃ = cc

-- With no process ready, `scheduler` halts if no process is left, otherwise waits if some process
-- waits for a device, and otherwise panics on the deadlock; no process is changed.
pub scheduler_idle :
    (arch : Arch) (k : Kernel)
    → IsReady k []
    → Leaves
        (idle_outcome (procs k).process_count k.soft_blocked_count)
        (λ t. procs t ≡ procs k)
        (scheduler arch k)
scheduler_idle arch k q =
    Leaves-weaken (scheduler_idle_semds arch k q) λ t (same, none). ap (λ (s : Semds). s.pcbs) same
