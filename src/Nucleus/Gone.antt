-- ===== src/Nucleus/Gone.antt =====
-- One process leaves the queues and the table, as `terminate_Process_rec` of
-- src/nucleousSystemCalls.c does with each.
use progetto_so.Base.{
  ◌≡◌, ◌≢◌, ◌⊎◌, ap, true, false, inl, inr, Bool-cases, List, [], ◌∷◌, ◌++◌, arith, ℤ, pos, ◌+ℤ◌,
  Ptr, null, update, has, ok, ◌==◌,
}
use mathlib.Core.Path.{subst}
use progetto_so.Pcb.Defs.{Pcbs, out_proc_q, free_pcb}
use progetto_so.Pcb.Ring.{IsQueue, has-append}
use progetto_so.Pcb.Frame.{SameAt, Chain-frame, IsQueue-frame}
use progetto_so.Pcb.Erase.{erase}
use progetto_so.Pcb.Pigeon.{has-erase_part}
use progetto_so.Pcb.Alloc.{IsFreeList}
use progetto_so.Pcb.Free.{Freed}
use progetto_so.Asl.Defs.{Semds, out_blocked}
use progetto_so.Asl.Entries.{Represents}
use progetto_so.Asl.Same.{Represents-same}
use progetto_so.Nucleus.Machine.{Kernel}
use progetto_so.Nucleus.Calls.{terminate_one}
use progetto_so.Nucleus.Switch.{procs}
use progetto_so.Nucleus.Waits.{Outside}
use progetto_so.Nucleus.Good.{IsQueued}

-- The queues, and the free blocks `fs`, which are on none of them.
pub record IsTable (k : Kernel) (f : Ptr → List Ptr) (xs fs : List Ptr) : Type 0 where
  pub queued : IsQueued k f xs
  pub free : IsFreeList (procs k).p_next (procs k).p_prev (procs k).pcb_free_h fs
  pub apart : (q : Ptr) → has q fs ≡ true → Outside q f xs

-- The process waits on the semaphore with which it is marked, if it is marked.
abbrev pub IsMarked : Kernel → (Ptr → List Ptr) → Ptr → Type 0
IsMarked k f p = ((procs k).p_sem_add p ≡ null) ⊎ (has p (f ((procs k).p_sem_add p)) ≡ true)

abbrev pub without : Ptr → (Ptr → List Ptr) → Ptr → List Ptr
without p f b = erase p (f b)

-- What the process leaves when it is taken off the queues: the descriptors `s`, and the tail `tp`
-- of the ready queue.
pub record IsOff (k : Kernel) (f : Ptr → List Ptr) (xs : List Ptr) (p : Ptr) (s : Semds) (tp : Ptr)
    : Type 0 where
  pub waiting : Represents s (without p f)
  pub ready : IsQueue s.pcbs.p_next s.pcbs.p_prev tp (erase p xs)
  pub nowhere : Outside p (without p f) (erase p xs)
  pub next : (q : Ptr) → Outside q f xs → s.pcbs.p_next q ≡ (procs k).p_next q
  pub prev : (q : Ptr) → Outside q f xs → s.pcbs.p_prev q ≡ (procs k).p_prev q
  pub rest : s.pcbs ≡ record (procs k) {
    p_next = s.pcbs.p_next;
    p_prev = s.pcbs.p_prev;
    p_sem_add = s.pcbs.p_sem_add;
  }
  pub mark : s.pcbs.p_sem_add p ≡ null
  pub marks : (q : Ptr) → q ≢ p → s.pcbs.p_sem_add q ≡ (procs k).p_sem_add q

-- The state with the descriptors, the table, the ready queue and the memory given.
abbrev pub ended : Kernel → Semds → Pcbs → Ptr → (Ptr → ℤ) → Kernel
ended k s v tp ints = record k { semds = record s { pcbs = v }; ready_queue = tp; ints = ints }

pub terminate_one_run_ready :
    (k : Kernel) (p r tp : Ptr) (u v : Pcbs)
    → p ≢ null
    → (procs k).p_sem_add p ≡ null
    → out_proc_q k.ready_queue p (procs k) ≡ ok (r, tp) u
    → free_pcb p u ≡ ok tt v
    → terminate_one p k ≡ ok tt (ended k (record k.semds { pcbs = u }) v tp k.ints)
unfolding terminate_one
terminate_one_run_ready k p r tp u v real mark out free = ground arith

pub terminate_one_run_waiting :
    (k : Kernel) (p a r : Ptr) (s : Semds) (v : Pcbs)
    → p ≢ null
    → (procs k).p_sem_add p ≡ a
    → a ≢ null
    → out_blocked p k.semds ≡ ok r s
    → free_pcb p s.pcbs ≡ ok tt v
    → terminate_one p k ≡ ok tt (ended k s v k.ready_queue (update k.ints a (k.ints a +ℤ pos 1)))
unfolding terminate_one
terminate_one_run_waiting k p a r s v real mark real_a out free = ground arith

pub erase-out : (p q : Ptr) (ys : List Ptr) → has q ys ≡ false → has q (erase p ys) ≡ false
erase-out p q ys o = elim (Bool-cases (has q (erase p ys))) [
  | inl i ↦ absurd (ground (arith, has-erase_part p q ys i, o))
  | inr h ↦ h
]

module _ (k : Kernel) (f : Ptr → List Ptr) (xs fs : List Ptr) (p : Ptr) (s : Semds) (tp : Ptr)
    (v : Pcbs) where
  module _ (off : IsOff k f xs p s tp) (apart : (q : Ptr) → has q fs ≡ true → Outside q f xs) where
    freed-Outside : (q : Ptr) → has q (fs ++ p ∷ []) ≡ true → Outside q (without p f) (erase p xs)
    freed-Outside q i = elim (Bool-cases (q == p)) [
      | inl g ↦
          let eq : p ≡ q = ground arith in
          subst (λ r. Outside r (without p f) (erase p xs)) eq off.nowhere
      | inr g ↦
          let o = apart q (ground (arith, has-append q fs (p ∷ []), i, g)) in
          (erase-out p q xs o.0, λ b. erase-out p q (f b) (o.1 b))
    ]

    ready_not_freed : (q : Ptr) → has q (erase p xs) ≡ true → has q (fs ++ p ∷ []) ≡ false
    ready_not_freed q i = elim (Bool-cases (has q (fs ++ p ∷ []))) [
      | inl j ↦ absurd (ground (arith, (freed-Outside q j).0, i))
      | inr o ↦ o
    ]

    waiting_not_freed : (b q : Ptr) → has q (without p f b) ≡ true → has q (fs ++ p ∷ []) ≡ false
    waiting_not_freed b q i = elim (Bool-cases (has q (fs ++ p ∷ []))) [
      | inl j ↦ absurd (ground (arith, (freed-Outside q j).1 b, i))
      | inr o ↦ o
    ]

    pub ended-IsTable :
        (ints : Ptr → ℤ)
        → IsQueued k f xs
        → Freed fs p s.pcbs v
        → IsTable (ended k s v tp ints) (without p f) (erase p xs) (fs ++ p ∷ [])
    ended-IsTable ints h freed = record {
      queued = record {
        kernel = record {
          waiting = Represents-same s v (without p f) off.waiting λ b q i. (
            freed.outside_next q (waiting_not_freed b q i),
            freed.outside_prev q (waiting_not_freed b q i),
            ap (λ (t : Pcbs). t.p_sem_add q) freed.rest,
          );
          ready =
              IsQueue-frame s.pcbs.p_next s.pcbs.p_prev v.p_next v.p_prev tp (erase p xs)
                (λ q i. freed.outside_next q (ready_not_freed q i))
                (λ q i. freed.outside_prev q (ready_not_freed q i)) off.ready;
          apart = λ b q i. erase-out p q xs (h.kernel.apart b q (has-erase_part p q (f b) i));
        };
        pool = λ q i. h.pool q (has-erase_part p q xs i);
      };
      free = freed.free;
      apart = freed-Outside;
    }

-- The free list is the same in another state that has the same links at its blocks.
pub IsFreeList-frame :
    (nx pv nx' pv' : Ptr → Ptr) (h : Ptr) (fs : List Ptr)
    → SameAt fs nx nx'
    → SameAt fs pv pv'
    → IsFreeList nx pv h fs
    → IsFreeList nx' pv' h fs
IsFreeList-frame nx pv nx' pv' h [] sn sp e = e
IsFreeList-frame nx pv nx' pv' h (x ∷ xs) sn sp (e, n, d, c) =
    (e, n, d, Chain-frame nx pv nx' pv' x x xs sn sp c)
