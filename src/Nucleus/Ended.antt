-- ===== src/Nucleus/Ended.antt =====
-- What becomes of one process: `terminate_Process_rec` of src/nucleousSystemCalls.c behind its loop.
use progetto_so.Base.{
  ◌≡◌, ◌≢◌, ℤ, refl, ap, ◌∙◌, inl, inr, false, List, [], ◌∷◌, ◌++◌, arith, pos, ◌+ℤ◌, ◌-ℤ◌, Ptr,
  null, update, has, Returns, Returns-inv, returned,
}
use mathlib.Core.Path.{subst, sym}
use progetto_so.Pcb.Defs.{Pcbs, free_pcb}
use progetto_so.Pcb.Erase.{erase}
use progetto_so.Pcb.Alloc.{IsFreeList}
use progetto_so.Pcb.Free.{Freed, free_pcb-Freed}
use progetto_so.Asl.Defs.{Semds}
use progetto_so.Asl.Marks.{Represents-IsWaiter}
use progetto_so.Nucleus.Machine.{Kernel}
use progetto_so.Nucleus.Calls.{terminate_one}
use progetto_so.Nucleus.Switch.{procs}
use progetto_so.Nucleus.Gone.{
  IsTable, IsMarked, IsOff, without, ended, ended-IsTable, IsFreeList-frame,
  terminate_one_run_ready, terminate_one_run_waiting,
}
use progetto_so.Nucleus.Off.{IsOff-ready, IsOff-waiting}

-- What the end of processes leaves as it was: the tree, and the marks of all others.
pub record IsEnded (k : Kernel) (p : Ptr) (t : Kernel) : Type 0 where
  pub counted : (procs t).process_count ≡ (procs k).process_count -ℤ pos 1
  pub marks : (q : Ptr) → q ≢ p → (procs t).p_sem_add q ≡ (procs k).p_sem_add q
  pub table : procs t ≡ record (procs k) {
    p_next = (procs t).p_next;
    p_prev = (procs t).p_prev;
    p_sem_add = (procs t).p_sem_add;
    pcb_free_h = (procs t).pcb_free_h;
    process_count = (procs t).process_count;
  }
  pub rest : t ≡ record k { semds = t.semds; ready_queue = t.ready_queue; ints = t.ints }

-- Taken off its queue and freed, a process keeps all but its links and its mark.
both_rest :
    (w s v : Pcbs)
    → s ≡ record w { p_next = s.p_next; p_prev = s.p_prev; p_sem_add = s.p_sem_add }
    → v ≡ record s {
      p_next = v.p_next;
      p_prev = v.p_prev;
      pcb_free_h = v.pcb_free_h;
      process_count = v.process_count;
    }
    → v ≡ record w {
      p_next = v.p_next;
      p_prev = v.p_prev;
      p_sem_add = v.p_sem_add;
      pcb_free_h = v.pcb_free_h;
      process_count = v.process_count;
    }
both_rest w s v off freed =
    freed
    ∙ ap at_end off
    ∙ ap (λ m. record (at_end w) { p_sem_add = m }) (sym (ap (λ (t : Pcbs). t.p_sem_add) freed))
  where
    at_end : Pcbs → Pcbs
    at_end t = record t {
      p_next = v.p_next;
      p_prev = v.p_prev;
      pcb_free_h = v.pcb_free_h;
      process_count = v.process_count;
    }

module _ (k : Kernel) (f : Ptr → List Ptr) (xs fs : List Ptr) (p : Ptr) where
  free_after :
      (s : Semds) (tp : Ptr)
      → IsTable k f xs fs
      → IsOff k f xs p s tp
      → p ≢ null
      → has p fs ≡ false
      → Returns (λ _ v. Freed fs p s.pcbs v) (free_pcb p s.pcbs)
  free_after s tp h off real unfree =
      free_pcb-Freed p fs s.pcbs
        (subst (λ e. IsFreeList s.pcbs.p_next s.pcbs.p_prev e fs)
          (sym (ap (λ (t : Pcbs). t.pcb_free_h) off.rest))
          (IsFreeList-frame (procs k).p_next (procs k).p_prev s.pcbs.p_next s.pcbs.p_prev
            (procs k).pcb_free_h fs (λ q i. off.next q (h.apart q i))
            (λ q i. off.prev q (h.apart q i)) h.free))
        real unfree

  ended-IsEnded :
      (s : Semds) (tp : Ptr) (v : Pcbs) (ints : Ptr → ℤ)
      → IsOff k f xs p s tp
      → Freed fs p s.pcbs v
      → IsEnded k p (ended k s v tp ints)
  ended-IsEnded s tp v ints off freed = record {
    counted = freed.counted ∙ ap (λ (t : Pcbs). t.process_count -ℤ pos 1) off.rest;
    marks = λ q ne. ap (λ (t : Pcbs). t.p_sem_add q) freed.rest ∙ off.marks q ne;
    table = both_rest (procs k) s.pcbs v off.rest freed.rest;
    rest = refl;
  }

  -- The process leaves its queue, the others staying in order, and its block is the last free one.
  pub terminate_one-IsTable :
      IsTable k f xs fs
      → IsMarked k f p
      → p ≢ null
      → has p fs ≡ false
      → Returns
          (λ _ t. IsTable t (without p f) (erase p xs) (fs ++ p ∷ []) × IsEnded k p t)
          (terminate_one p k)
  terminate_one-IsTable h (inl mark) real unfree =
      let (r, tp, u, out, off) = IsOff-ready k f xs p h.queued mark in
      let s = record k.semds { pcbs = u } in
      let (_, v, free, freed) = Returns-inv (free_after s tp h off real unfree) in
      rw (terminate_one_run_ready k p r tp u v real mark out free) (
        returned (
          ended-IsTable k f xs fs p s tp v off h.apart k.ints h.queued freed,
          ended-IsEnded s tp v k.ints off freed,
        ))
  terminate_one-IsTable h (inr i) real unfree =
      let a = (procs k).p_sem_add p in
      let (r, s, out, off) = IsOff-waiting k f xs p h.queued i in
      let (_, v, free, freed) = Returns-inv (free_after s k.ready_queue h off real unfree) in
      rw
        (terminate_one_run_waiting k p a r s v real refl
          (λ none.
            omega (arith, none, (Represents-IsWaiter k.semds f a p h.queued.kernel.waiting i).1))
          out free)
        (returned (
          ended-IsTable k f xs fs p s k.ready_queue v off h.apart
              (update k.ints a (k.ints a +ℤ pos 1)) h.queued freed,
          ended-IsEnded s k.ready_queue v (update k.ints a (k.ints a +ℤ pos 1)) off freed,
        ))
