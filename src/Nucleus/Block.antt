-- ===== src/Nucleus/Block.antt =====
-- `blockCurrentProcessAt` of src/nucleousSystemCalls.c on the ready queue and the semaphores.
use progetto_so.Base.{
  ◌+◌, ◌≤◌, ◌<◌, ◌≡◌, ◌≢◌, refl, ap, Bool, true, false, inl, inr, Bool-cases, List, [], ◌∷◌, ◌++◌,
  arith, ◌+ℤ◌, ◌-ℤ◌, Ptr, null, update, has, Returns, Returns-weaken, ◌==◌,
}
use progetto_so.Pcb.Defs.{max_proc}
use progetto_so.Pcb.Ring.{has-append}
use progetto_so.Pcb.Frame.{IsQueue-frame}
use progetto_so.Asl.Defs.{Semds, max_add, insert_blocked}
use progetto_so.Asl.Room.{Represents-free}
use progetto_so.Asl.Same.{Represents-same}
use progetto_so.Asl.Blocked.{enqueued, Inserted, insert_blocked-Inserted}
use progetto_so.Nucleus.Machine.{Kernel}
use progetto_so.Nucleus.Switch.{procs}
use progetto_so.Nucleus.Waits.{IsKernel, Outside}

-- The running process, charged for the time since it was loaded.
abbrev pub charged : Kernel → Ptr → Semds
charged k p = record k.semds {
  pcbs = record (procs k) {
    p_time = update (procs k).p_time p ((procs k).p_time p +ℤ (k.tod k.tod_reads -ℤ k.start_t));
  };
}

-- The state after the running process is blocked with the descriptors `s`.
abbrev pub blocked : Kernel → Semds → Kernel
blocked k s = record k { tod_reads = k.tod_reads + 1; semds = s; current_process = null }

-- The state behind `insertBlocked`, where a descriptor is free.
abbrev pub AfterBlock : Kernel → (Ptr → List Ptr) → (p a : Ptr) → List Ptr → Semds → Type 0
AfterBlock k f p a xs s = IsKernel (blocked k s) (enqueued f a p) xs

inserted-AfterBlock :
    (k : Kernel) (f : Ptr → List Ptr) (p a : Ptr) (xs : List Ptr) (full : Bool) (s : Semds)
    → IsKernel k f xs
    → Outside p f xs
    → k.semds.semd_free_h ≢ null
    → Inserted (charged k p) f a p full s
    → AfterBlock k f p a xs s
inserted-AfterBlock k f p a xs full s h out room (inl (is_full, same, nobody, none)) =
    absurd (room none)
inserted-AfterBlock k f p a xs full s h out room (inr (not_full, waiting, links)) = record {
  waiting = waiting;
  ready =
      IsQueue-frame (procs k).p_next (procs k).p_prev s.pcbs.p_next s.pcbs.p_prev k.ready_queue xs
        (λ q i. links.outside_next q (not_moved q i)) (λ q i. links.outside_prev q (not_moved q i))
        h.ready;
  apart = in_queue;
}
  where
    not_moved : (q : Ptr) → has q xs ≡ true → has q (f a ++ p ∷ []) ≡ false
    not_moved q i = elim (Bool-cases (q == p)) [
      | inl g ↦
          let eq : q ≡ p = ground arith in
          absurd (ground (arith, ap (λ (v : Ptr). has v xs) eq, out.0, i))
      | inr g ↦ ground (arith, has-append q (f a) (p ∷ []), h.apart a q, i, g)
    ]

    in_queue : (b q : Ptr) → has q (enqueued f a p b) ≡ true → has q xs ≡ false
    in_queue b q i = elim (Bool-cases (has q xs)) [
      | inl g ↦ absurd (ground (arith, not_moved q g, h.apart b q, i))
      | inr g ↦ g
    ]

-- The running process is blocked, and each process still waits in one place at most.
pub blocks :
    (k : Kernel) (f : Ptr → List Ptr) (p a : Ptr) (xs : List Ptr)
    → IsKernel k f xs
    → p ≢ null
    → p ≤ max_proc
    → Outside p f xs
    → 0 < a
    → a < max_add
    → Returns (λ _ s. AfterBlock k f p a xs s) (insert_blocked a p (charged k p))
blocks k f p a xs h real pool out positive below =
    let room = Represents-free k.semds f p h.waiting real pool out.1 in
    Returns-weaken
      (insert_blocked-Inserted (charged k p) f a p
        (Represents-same k.semds (charged k p).pcbs f h.waiting (λ b q i. (refl, refl, refl)))
        positive below real pool out.1)
      (λ full s after. inserted-AfterBlock k f p a xs full s h out room after)
