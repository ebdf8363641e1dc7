-- ===== src/Nucleus/Wake.antt =====
-- A process taken from a semaphore of src/asl.c and put at the end of the ready queue.
use progetto_so.Base.{
  ◌<◌, ◌≡◌, ◌≢◌, refl, sym, ap, ◌∙◌, true, false, inl, inr, Bool-cases, List, [], ◌∷◌, ◌++◌, arith,
  Ptr, null, has, ok, Returns, Returns-inv, ◌==◌,
}
use mathlib.Core.Path.{subst}
use progetto_so.Pcb.Defs.{Pcbs, ProcState, insert_proc_q}
use progetto_so.Pcb.Ring.{has-append}
use progetto_so.Pcb.Queue.{OnlyLinks, insert_proc_q-append}
use progetto_so.Pcb.Frame.{IsQueue-frame}
use progetto_so.Asl.Defs.{Semds, max_add, remove_blocked}
use progetto_so.Asl.Entries.{Represents}
use progetto_so.Asl.Same.{Represents-same}
use progetto_so.Asl.Release.{unmarked}
use progetto_so.Asl.Marks.{Represents-IsWaiter}
use progetto_so.Asl.Remove.{Removed, requeued, remove_blocked-Removed}
use progetto_so.Nucleus.Machine.{Kernel}
use progetto_so.Nucleus.Switch.{procs, IsReady}
use progetto_so.Nucleus.Waits.{IsKernel, IsKernel-map, OnlyLinks-SameBlock}

-- The state with the semaphores `s`, and the ready queue `tp` in the table `t`.
abbrev pub waked : Kernel → Semds → Pcbs → Ptr → Kernel
waked k s t tp = record k { semds = record s { pcbs = t }; ready_queue = tp }

-- The table with other saved states.
abbrev pub restated : ((Ptr → ProcState) → Ptr → ProcState) → Pcbs → Pcbs
restated g t = record t { p_s = g t.p_s }

-- The process `y`, taken from `a`, is made ready after a change `g` of the saved states: both calls
-- return.
pub record Woken (g : (Ptr → ProcState) → Ptr → ProcState) (k : Kernel) (f : Ptr → List Ptr)
    (a y : Ptr) (ys xs : List Ptr) : Type 0 where
  pub semds : Semds
  pub table : Pcbs
  pub tail : Ptr
  pub removed : remove_blocked a k.semds ≡ ok y semds
  pub inserted : insert_proc_q k.ready_queue y (restated g semds.pcbs) ≡ ok tail table
  pub real : y ≢ null
  pub kernel : IsKernel (waked k semds table tail) (requeued f a ys) (xs ++ y ∷ [])
  pub states : table.p_s ≡ g (procs k).p_s

module _ (g : (Ptr → ProcState) → Ptr → ProcState) (k : Kernel) (f : Ptr → List Ptr) (a y : Ptr)
    (ys xs : List Ptr) where
  -- Who still waits does not become ready.
  still_apart :
      (s : Semds)
      → IsKernel k f xs
      → f a ≡ y ∷ ys
      → Represents s (requeued f a ys)
      → s.pcbs.p_sem_add y ≡ null
      → (b q : Ptr) → has q (requeued f a ys b) ≡ true
      → has q (xs ++ y ∷ []) ≡ false
  still_apart s h queue r gone b q i = elim (Bool-cases (q == y)) [
    | inl g ↦
        let eq : q ≡ y = ground arith in
        let w = Represents-IsWaiter s (requeued f a ys) b q r i in
        absurd (omega (arith, sym w.0 ∙ ap s.pcbs.p_sem_add eq ∙ gone, w.1))
    | inr g ↦ ground (arith, has-append q xs (y ∷ []), h.apart b q was, g)
  ]
    where
      was_in : b ≡ a → has q (f b) ≡ true
      was_in e = ap (λ c. has q (f c)) e ∙ ap (has q) queue ∙ ground (arith, i, e)

      was : has q (f b) ≡ true
      was = elim (Bool-cases (b == a)) [
        | inl g ↦ was_in (ground arith)
        | inr g ↦ ground (arith, i, g)
      ]

  -- The ready queue is disjoint from that of the semaphore.
  ready_after :
      (s : Semds) (t : Pcbs)
      → IsKernel k f xs
      → f a ≡ y ∷ ys
      → OnlyLinks (y ∷ ys) (procs k) t
      → IsReady (record k { semds = record s { pcbs = unmarked t y } }) xs
  ready_after s t h queue links =
      IsQueue-frame (procs k).p_next (procs k).p_prev t.p_next t.p_prev k.ready_queue xs
        (λ q i. links.outside_next q (elsewhere q i)) (λ q i. links.outside_prev q (elsewhere q i))
        h.ready
    where
      elsewhere : (q : Ptr) → has q xs ≡ true → has q (y ∷ ys) ≡ false
      elsewhere q i = elim (Bool-cases (has q (y ∷ ys))) [
        | inl g ↦ absurd (ground (arith, h.apart a q (ap (has q) queue ∙ g), i))
        | inr g ↦ g
      ]

  pub wakes : IsKernel k f xs → f a ≡ y ∷ ys → a < max_add → Woken g k f a y ys xs
  wakes h queue below =
      let (x, s, removed, (is_y, map, (u, same, links, next, prev))) = Returns-inv (
        subst (λ l. Returns (Removed k.semds f a l) (remove_blocked a k.semds)) queue
          (remove_blocked-Removed k.semds f a h.waiting below)) in
      let i : has y (f a) ≡ true = ap (has y) queue ∙ ground arith in
      let real : y ≢ null = omega (arith, Represents-IsWaiter k.semds f a y h.waiting i) in
      let gone : s.pcbs.p_sem_add y ≡ null = ap (λ (v : Pcbs). v.p_sem_add y) same ∙ ground arith in
      let ready =
        subst (λ v. IsReady (record k { semds = record s { pcbs = v } }) xs) (sym same)
          (ready_after s u h queue links) in
      let (tp, t, inserted, (is_tail, kept, moved)) =
        Returns-inv (
          insert_proc_q-append k.ready_queue y xs (restated g s.pcbs) ready real (h.apart a y i)) in
      let apart = still_apart s h queue map gone in
      record {
        semds = s;
        table = t;
        tail = tp;
        removed = subst (λ v. remove_blocked a k.semds ≡ ok v s) is_y removed;
        inserted = inserted;
        real = real;
        kernel = record {
          waiting = Represents-same s t (requeued f a ys) map (λ b q j.
              OnlyLinks-SameBlock (xs ++ y ∷ []) (restated g s.pcbs) t q moved (apart b q j));
          ready = kept;
          apart = apart;
        };
        states =
            ap (λ (v : Pcbs). v.p_s) moved.rest
            ∙ ap (λ (v : Pcbs). g v.p_s) same
            ∙ ap (λ (v : Pcbs). g v.p_s) links.rest;
      }

module _ (k : Kernel) (f : Ptr → List Ptr) (a : Ptr) (xs : List Ptr) where
  pub requeued-same : f a ≡ [] → (b : Ptr) → f b ≡ requeued f a [] b
  requeued-same queue b = elim (Bool-cases (b == a)) [
    | inl h ↦ let eq : b ≡ a = ground arith in rw h (ap f eq ∙ queue)
    | inr h ↦ rw h refl
  ]

  -- Where none waits, none is woken.
  pub wakes_none :
      IsKernel k f xs
      → f a ≡ []
      → a < max_add
      → (remove_blocked a k.semds ≡ ok null k.semds) × IsKernel k (requeued f a []) xs
  wakes_none h queue below =
      let (x, t, run, (is_x, is_t)) = Returns-inv (
        subst (λ l. Returns (Removed k.semds f a l) (remove_blocked a k.semds)) queue
          (remove_blocked-Removed k.semds f a h.waiting below)) in
      (cc, IsKernel-map k f (requeued f a []) xs h (requeued-same queue))
