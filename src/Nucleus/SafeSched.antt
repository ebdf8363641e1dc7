-- ===== src/Nucleus/SafeSched.antt =====
-- `scheduler` of src/scheduler.c ends without a fault and keeps the queues.
use progetto_so.Base.{
  ◌≡◌, inl, inr, refl, sym, ◌∙◌, false, Bool-cases, List, [], ◌∷◌, arith, pos, ltb_ℤ, Ptr, null,
  has, ok, Returns-inv, Ends, ends, Leaves-Ends,
}
use mathlib.Core.Path.{subst}
use progetto_so.Pcb.Defs.{remove_proc_q}
use progetto_so.Pcb.Ring.{IsQueue-no_null, empty}
use progetto_so.Pcb.Queue.{remove_proc_q-Dequeued}
use progetto_so.Pcb.Frame.{IsQueue-Distinct}
use progetto_so.Nucleus.Machine.{Arch, Kernel}
use progetto_so.Nucleus.Sched.{is_zero, nothing_ready, set_status_for_waiting, scheduler}
use progetto_so.Nucleus.Switch.{procs, IsReady}
use progetto_so.Nucleus.Waits.{scheduler-IsKernel}
use progetto_so.Nucleus.Good.{IsQueued, IsRunning, IsGood, IsQueued-same}

-- With no process ready the scheduler ends, and no process runs.
nothing_ready-Ends : (arch : Arch) (k : Kernel) → IsGood k → Ends IsGood (nothing_ready arch k)
unfolding nothing_ready set_status_for_waiting
nothing_ready-Ends arch k g = elim (Bool-cases (is_zero (procs k).process_count)) [
  | inl none ↦ rw none (ends g)
  | inr some ↦ rw some (elim (Bool-cases (ltb_ℤ (pos 0) k.soft_blocked_count)) [
    | inl wait ↦ rw wait (
        ends (record {
          queues = g.queues;
          ready = g.ready;
          queued =
              IsQueued-same k
                (record k {
                  current_process = null;
                  timer = 0xFFFFFFFF;
                  status = arch.waiting_status;
                })
                g.queues g.ready g.queued (refl, refl, refl, refl, refl);
          running = inl refl;
        }))
    | inr panic ↦ rw panic (ends g)
  ])
]

scheduler_run_idle :
    (arch : Arch) (k : Kernel)
    → remove_proc_q k.ready_queue (procs k) ≡ ok (null, null) (procs k)
    → scheduler arch k ≡ nothing_ready arch (record k { ready_queue = null })
unfolding scheduler
scheduler_run_idle arch k e = ground arith

idle_run :
    (k : Kernel) → IsReady k [] → remove_proc_q k.ready_queue (procs k) ≡ ok (null, null) (procs k)
idle_run k q =
    let ((out, tp), t, e, (no_out, no_tail, same)) =
      Returns-inv (remove_proc_q-Dequeued k.ready_queue [] (procs k) q) in
    e ∙ cc

-- The process taken from a queue is a block of the table, and is on no queue any more.
dequeued-IsRunning :
    (k : Kernel) (f : Ptr → List Ptr) (x : Ptr) (xs : List Ptr)
    → IsQueued k f (x ∷ xs)
    → IsRunning x f xs
dequeued-IsRunning k f x xs h =
    let no_null =
      IsQueue-no_null (procs k).p_next (procs k).p_prev k.ready_queue (x ∷ xs) h.kernel.ready in
    let distinct =
      IsQueue-Distinct (procs k).p_next (procs k).p_prev k.ready_queue (x ∷ xs) h.kernel.ready in
    (ground arith, h.pool x (ground arith), (distinct.0, waits_nowhere))
  where
    waits_nowhere : (b : Ptr) → has x (f b) ≡ false
    waits_nowhere b = elim (Bool-cases (has x (f b))) [
      | inl i ↦ absurd (ground (arith, h.kernel.apart b x i))
      | inr o ↦ o
    ]

-- With sound queues, and no process running if none is ready, the scheduler ends in a good state.
pub scheduler-Ends :
    (arch : Arch) (k : Kernel) (f : Ptr → List Ptr) (xs : List Ptr)
    → IsQueued k f xs
    → (xs ≡ [] → k.current_process ≡ null)
    → Ends IsGood (scheduler arch k)
scheduler-Ends arch k f [] h idle = rw (scheduler_run_idle arch k (idle_run k h.kernel.ready)) (
    nothing_ready-Ends arch (record k { ready_queue = null })
      (record {
        queues = f;
        ready = [];
        queued = record {
          kernel = record {
            waiting = h.kernel.waiting;
            ready = empty refl;
            apart = h.kernel.apart;
          };
          pool = h.pool;
        };
        running = inl (idle refl);
      }))
scheduler-Ends arch k f (x ∷ xs) h idle =
    Leaves-Ends (scheduler-IsKernel arch k f x xs h.kernel) λ t (runs, kernel, same, links).
      record {
        queues = f;
        ready = xs;
        queued = record { kernel = kernel; pool = λ q i. h.pool q (ground (arith, i)) };
        running = inr (subst (λ p. IsRunning p f xs) (sym runs.0) (dequeued-IsRunning k f x xs h));
      }
