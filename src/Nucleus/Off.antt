-- ===== src/Nucleus/Off.antt =====
-- A process is taken off the queues, as `terminate_Process_rec` of src/nucleousSystemCalls.c does:
-- by `outBlocked` where it waits on a semaphore, and by `outProcQ` of the ready queue elsewhere.
use progetto_so.Base.{
  ◌≤◌, ◌≡◌, ◌≢◌, refl, sym, ap, ◌∙◌, Bool, true, false, ◌⊎◌, inl, inr, Bool-cases, List, [], ◌∷◌,
  arith, Ptr, null, update, has, length, ok, Returns-inv, ◌==◌,
}
use mathlib.Core.Path.{subst}
use progetto_so.Pcb.Defs.{Pcbs, max_proc, out_proc_q}
use progetto_so.Pcb.Ring.{IsQueue, IsQueue-no_null}
use progetto_so.Pcb.Frame.{IsQueue-frame, IsQueue-Distinct}
use progetto_so.Pcb.Erase.{erase}
use progetto_so.Pcb.Pigeon.{has-erase_self, length-le}
use progetto_so.Pcb.Takeout.{TakenOut}
use progetto_so.Pcb.Out.{out_proc_q-erase}
use progetto_so.Asl.Defs.{Semds, out_blocked}
use progetto_so.Asl.Entries.{Represents}
use progetto_so.Asl.Same.{Represents-same, Represents-map}
use progetto_so.Asl.Marks.{Represents-IsWaiter}
use progetto_so.Asl.Release.{unmarked}
use progetto_so.Asl.Remove.{requeued}
use progetto_so.Asl.Out.{out_blocked-TakenOff, positive}
use progetto_so.Nucleus.Machine.{Kernel}
use progetto_so.Nucleus.Switch.{procs}
use progetto_so.Nucleus.Waits.{OnlyLinks-SameBlock}
use progetto_so.Nucleus.Good.{IsQueued}
use progetto_so.Nucleus.Gone.{without, IsOff, erase-out}

pub erase-absent : (p : Ptr) (ys : List Ptr) → has p ys ≡ false → erase p ys ≡ ys
erase-absent p [] o = refl
erase-absent p (y ∷ ys) o = ground (arith, erase-absent p ys)

-- A block waits on no semaphore but the one with which it is marked.
waits_nowhere_else :
    (s : Semds) (f : Ptr → List Ptr) (b p : Ptr)
    → Represents s f
    → (b ≢ s.pcbs.p_sem_add p) ⊎ (s.pcbs.p_sem_add p ≡ null)
    → has p (f b) ≡ false
waits_nowhere_else s f b p r other = elim (Bool-cases (has p (f b))) [
  | inl i ↦
      let w = Represents-IsWaiter s f b p r i in
      absurd (elim other [ inl ne ↦ ne (sym w.0) | inr none ↦ omega (arith, sym w.0 ∙ none, w.1) ])
  | inr o ↦ o
]

-- Only links and marks are changed.
unmarked_rest :
    (v u w : Pcbs) (p : Ptr)
    → v ≡ unmarked u p
    → u ≡ record w { p_next = u.p_next; p_prev = u.p_prev }
    → v ≡ record w { p_next = v.p_next; p_prev = v.p_prev; p_sem_add = v.p_sem_add }
unmarked_rest v u w p is_v is_u =
    subst (λ x. x ≡ record w { p_next = x.p_next; p_prev = x.p_prev; p_sem_add = x.p_sem_add })
      (sym is_v)
      (ap (λ x. unmarked x p) is_u
        ∙ ap (λ m. record w { p_next = u.p_next; p_prev = u.p_prev; p_sem_add = update m p null })
            (sym (ap (λ (x : Pcbs). x.p_sem_add) is_u)))

module _ (k : Kernel) (f : Ptr → List Ptr) (xs : List Ptr) (p : Ptr) where
  ready_length : IsQueued k f xs → length xs ≤ max_proc
  ready_length h =
      let no_null =
        IsQueue-no_null (procs k).p_next (procs k).p_prev k.ready_queue xs h.kernel.ready in
      length-le max_proc xs
        (IsQueue-Distinct (procs k).p_next (procs k).p_prev k.ready_queue xs h.kernel.ready)
        (λ q i. (positive q xs i no_null, h.pool q i))

  not_waiting : IsQueued k f xs → (procs k).p_sem_add p ≡ null → (b : Ptr) → has p (f b) ≡ false
  not_waiting h mark b = waits_nowhere_else k.semds f b p h.kernel.waiting (inr mark)

  IsOff-absent :
      IsQueued k f xs
      → (procs k).p_sem_add p ≡ null
      → has p xs ≡ false
      → IsOff k f xs p k.semds k.ready_queue
  IsOff-absent h mark o = record {
    waiting =
        Represents-map k.semds f (without p f) h.kernel.waiting
          (λ b. sym (erase-absent p (f b) (not_waiting h mark b)));
    ready =
        subst (λ l. IsQueue (procs k).p_next (procs k).p_prev k.ready_queue l)
          (sym (erase-absent p xs o)) h.kernel.ready;
    nowhere = (erase-out p p xs o, λ b. erase-out p p (f b) (not_waiting h mark b));
    next = λ q out. refl;
    prev = λ q out. refl;
    rest = refl;
    mark = mark;
    marks = λ q ne. refl;
  }

  IsOff-by :
      (r tp' : Ptr) (u : Pcbs) (b : Bool)
      → IsQueued k f xs
      → (procs k).p_sem_add p ≡ null
      → has p xs ≡ b
      → TakenOut (procs k) k.ready_queue xs p b (r, tp') u
      → IsOff k f xs p (record k.semds { pcbs = u }) tp'
  IsOff-by r tp' u true h mark i (is_p, ready, links, no_next, no_prev) = record {
    waiting =
        Represents-map (record k.semds { pcbs = u }) f (without p f)
          (Represents-same k.semds u f h.kernel.waiting
            λ b q j. OnlyLinks-SameBlock xs (procs k) u q links (h.kernel.apart b q j))
          (λ b. sym (erase-absent p (f b) (not_waiting h mark b)));
    ready = ready;
    nowhere = (
      has-erase_self p xs
          (IsQueue-Distinct (procs k).p_next (procs k).p_prev k.ready_queue xs h.kernel.ready),
      λ b. erase-out p p (f b) (not_waiting h mark b),
    );
    next = λ q o. links.outside_next q o.0;
    prev = λ q o. links.outside_prev q o.0;
    rest = ground (arith, links.rest);
    mark = ap (λ (t : Pcbs). t.p_sem_add p) links.rest ∙ mark;
    marks = λ q ne. ap (λ (t : Pcbs). t.p_sem_add q) links.rest;
  }
  IsOff-by r tp' u false h mark o (none, is_tp, is_u) =
      subst (λ tp. IsOff k f xs p (record k.semds { pcbs = u }) tp) (sym is_tp)
        (subst (λ t. IsOff k f xs p (record k.semds { pcbs = t }) k.ready_queue) (sym is_u)
          (IsOff-absent h mark o))

  -- A process that waits on no semaphore is taken out of the ready queue, if it is there.
  pub IsOff-ready :
      IsQueued k f xs
      → (procs k).p_sem_add p ≡ null
      → (r : Ptr) × (tp : Ptr) × (u : Pcbs) × (out_proc_q k.ready_queue p (procs k) ≡ ok (r, tp) u)
        × IsOff k f xs p (record k.semds { pcbs = u }) tp
  IsOff-ready h mark =
      let ((r, tp), u, run, out) =
        Returns-inv
          (out_proc_q-erase k.ready_queue p xs (procs k) h.kernel.ready (ready_length h)) in
      (r, tp, u, run, IsOff-by r tp u (has p xs) h mark refl out)

  -- A process that waits is taken off its semaphore; it was not ready.
  pub IsOff-waiting :
      IsQueued k f xs
      → has p (f ((procs k).p_sem_add p)) ≡ true
      → (r : Ptr) × (s : Semds) × (out_blocked p k.semds ≡ ok r s) × IsOff k f xs p s k.ready_queue
  IsOff-waiting h i =
      let a = (procs k).p_sem_add p in
      let (r, s, run, (is_p, represents, (u, is_u, links, no_next, no_prev))) =
        Returns-inv (out_blocked-TakenOff k.semds f a p h.kernel.waiting i) in
      let waiting : Represents s (without p f) =
        Represents-map s (requeued f a (erase p (f a))) (without p f) represents
          (same_map a refl) in
      let mark : s.pcbs.p_sem_add p ≡ null = ap (λ (t : Pcbs). t.p_sem_add p) is_u ∙ ground arith in
      (
        r,
        s,
        run,
        record {
          waiting = waiting;
          ready =
              subst (λ l. IsQueue s.pcbs.p_next s.pcbs.p_prev k.ready_queue l)
                (sym (erase-absent p xs (h.kernel.apart a p i)))
                (IsQueue-frame (procs k).p_next (procs k).p_prev s.pcbs.p_next s.pcbs.p_prev
                  k.ready_queue xs
                  (λ q j.
                    ap (λ (t : Pcbs). t.p_next q) is_u
                    ∙ links.outside_next q (ready_elsewhere h a q j))
                  (λ q j.
                    ap (λ (t : Pcbs). t.p_prev q) is_u
                    ∙ links.outside_prev q (ready_elsewhere h a q j))
                  h.kernel.ready);
          nowhere = (
            erase-out p p xs (h.kernel.apart a p i),
            λ b. waits_nowhere_else s (without p f) b p waiting (inr mark),
          );
          next = λ q o. ap (λ (t : Pcbs). t.p_next q) is_u ∙ links.outside_next q (o.1 a);
          prev = λ q o. ap (λ (t : Pcbs). t.p_prev q) is_u ∙ links.outside_prev q (o.1 a);
          rest = unmarked_rest s.pcbs u (procs k) p is_u links.rest;
          mark = mark;
          marks = λ q ne.
              ap (λ (t : Pcbs). t.p_sem_add q) is_u
              ∙ ground arith
              ∙ ap (λ (t : Pcbs). t.p_sem_add q) links.rest;
        },
      )
    where
      ready_elsewhere : IsQueued k f xs → (a q : Ptr) → has q xs ≡ true → has q (f a) ≡ false
      ready_elsewhere h a q j = elim (Bool-cases (has q (f a))) [
        | inl e ↦ absurd (ground (arith, h.kernel.apart a q e, j))
        | inr o ↦ o
      ]

      same_map :
          (a : Ptr)
          → (procs k).p_sem_add p ≡ a
          → (b : Ptr) → requeued f a (erase p (f a)) b ≡ without p f b
      same_map a mark b = elim (Bool-cases (b == a)) [
        | inl g ↦ let eq : b ≡ a = ground arith in rw g (ap (λ c. erase p (f c)) (sym eq))
        | inr g ↦ rw g (
            sym (
              erase-absent p (f b) (
                waits_nowhere_else k.semds f b p h.kernel.waiting
                  (inl λ e. ground (arith, g, e ∙ mark)))))
      ]
