-- ===== src/Nucleus/Slice.antt =====
-- `handlePLTInterrupt` of src/interrupts.c: the end of a time slice.
use mathlib.Core.Path.{subst}
use progetto_so.Base.{
  ◌≡◌, ◌∙◌, ap, ◌≢◌, ◌%◌, ◌*◌, ◌^◌, false, List, [], ◌∷◌, ◌++◌, arith, ℤ, ◌+ℤ◌, ◌-ℤ◌, Ptr, null,
  update, has, ok, Outcome, Returns-inv, Leaves, Leaves-weaken,
}
use progetto_so.Pcb.Defs.{Pcbs, insert_proc_q}
use progetto_so.Pcb.Queue.{insert_proc_q-append}
use progetto_so.Nucleus.Machine.{Arch, Kernel, copy_state}
use progetto_so.Nucleus.Sched.{scheduler}
use progetto_so.Nucleus.Interrupts.{handle_plt_interrupt}
use progetto_so.Nucleus.Switch.{procs, IsReady, Runs, scheduler-Runs}

-- The block of the interrupted process, charged and with its state saved.
abbrev pub suspended : Arch → Kernel → Ptr → ℤ → Pcbs
suspended arch k p stop_t = record (procs k) {
  p_time = update (procs k).p_time p ((procs k).p_time p +ℤ (stop_t -ℤ k.start_t));
  p_s = update (procs k).p_s p (copy_state arch k.bios_data_page ((procs k).p_s p));
}

abbrev pub requeued : Kernel → Ptr → Pcbs → Kernel
requeued k tp t = record k {
  timer = 5000 * k.time_scale % 2 ^ 32;
  semds = record k.semds { pcbs = t };
  ready_queue = tp;
}

pub plt_run :
    (arch : Arch) (k : Kernel) (p tp : Ptr) (t : Pcbs) (stop_t : ℤ)
    → k.current_process ≡ p
    → p ≢ null
    → insert_proc_q k.ready_queue p (suspended arch k p stop_t) ≡ ok tp t
    → handle_plt_interrupt arch stop_t k ≡ scheduler arch (requeued k tp t)
unfolding handle_plt_interrupt
plt_run arch k p tp t stop_t e h run = ground arith

-- At the end of a time slice the running process goes behind the ready ones, charged for the time
-- that it ran, and the process that has been ready longest is loaded: itself, if there is no other.
pub plt_interrupt-Runs :
    (arch : Arch) (k : Kernel) (p x : Ptr) (xs rest : List Ptr) (stop_t : ℤ)
    → IsReady k xs
    → k.current_process ≡ p
    → p ≢ null
    → has p xs ≡ false
    → xs ++ p ∷ [] ≡ x ∷ rest
    → Leaves
        (Outcome.load_state x)
        (λ t. Runs x rest t × ((procs t).p_time p ≡ (procs k).p_time p +ℤ (stop_t -ℤ k.start_t)))
        (handle_plt_interrupt arch stop_t k)
plt_interrupt-Runs arch k p x xs rest stop_t q e h out split =
    let (tp, t, run, post) =
      Returns-inv (insert_proc_q-append k.ready_queue p xs (suspended arch k p stop_t) q h out) in
    let again =
      scheduler-Runs arch (requeued k tp t) x rest
        (subst (λ l. IsReady (requeued k tp t) l) split post.1) in
    rw (plt_run arch k p tp t stop_t e h run) (
      Leaves-weaken again λ u (runs, links).
        (runs, ap (λ s. s.p_time p) links.rest ∙ ap (λ s. s.p_time p) post.2.rest ∙ ground arith))
