-- ===== src/Nucleus/Terminated.antt =====
-- `terminate_Process` of src/nucleousSystemCalls.c: a process ends with all that stand below it.
use progetto_so.Base.{
  ℕ, suc, ◌+◌, ◌≤◌, ◌<◌, ◌≡◌, ◌≢◌, ap, ◌∙◌, sym, true, false, List, [], ◌∷◌, ◌++◌, arith, pos, ◌-ℤ◌,
  Ptr, null, has, length, length-append, ok, and_then, Leaves, Returns, Returns-inv, Returns-weaken,
  Returns-Leaves,
}
use mathlib.Core.Path.{subst}
use progetto_so.Pcb.Defs.{Pcbs, max_proc, out_child}
use progetto_so.Pcb.Ring.{has-ne, Distinct, has-append, Distinct-append_left, Distinct-append_apart}
use progetto_so.Pcb.Pigeon.{length-le}
use progetto_so.Pcb.Forest.{Forest, blocks, Grows, IsBelow, Grows-frame, IsFirst-frame}
use progetto_so.Pcb.Orphan.{IsOut, out_child-IsOut}
use progetto_so.Nucleus.Machine.{Arch, Kernel}
use progetto_so.Nucleus.Calls.{
  terminate_children, terminate_process_rec, terminate_process, terminate_one,
}
use progetto_so.Nucleus.Sched.{scheduler}
use progetto_so.Nucleus.Switch.{procs}
use progetto_so.Nucleus.Gone.{IsTable}
use progetto_so.Nucleus.After.{withouts, erases, AreInUse, AreInUse-part, treed}
use progetto_so.Nucleus.Subtree.{treed-IsTable, treed-AreInUse, root_After}
use progetto_so.Nucleus.Children.{children_After}
use progetto_so.Nucleus.Over.{next_outcome, IsOver, scheduler-IsOver}

-- The process and all below it, in the order in which they end.
abbrev pub all_of : Ptr → Forest → List Ptr
all_of p t = blocks t ++ p ∷ []

-- The processes below `p` are those of `t`, all different blocks of the table, and neither its
-- parent nor the sibling before it is one of them.
pub record IsSubtree (s : Pcbs) (p : Ptr) (t : Forest) : Type 0 where
  pub below : IsBelow s p t
  pub distinct : Distinct (all_of p t)
  pub in_table : (q : Ptr) → has q (all_of p t) ≡ true → (q ≢ null) × (q ≤ max_proc)
  pub parent : has (s.p_prnt p) (all_of p t) ≡ false
  pub before : has (s.p_prev_sib p) (blocks t) ≡ false

module _ (s : Pcbs) (p : Ptr) (t : Forest) (h : IsSubtree s p t) where
  has-all_of : has p (all_of p t) ≡ true
  has-all_of = ground (arith, has-append p (blocks t) (p ∷ []))

  has-all_below : (q : Ptr) → has q (blocks t) ≡ true → has q (all_of p t) ≡ true
  has-all_below q i = ground (arith, has-append q (blocks t) (p ∷ []), i)

  not_below : has p (blocks t) ≡ false
  not_below = Distinct-append_apart (blocks t) (p ∷ []) p h.distinct (ground arith)

  few : length (blocks t) < max_proc
  few =
      let bound : length (all_of p t) ≤ max_proc =
        length-le max_proc (all_of p t) h.distinct
          (λ q i. (let real = (h.in_table q i).0 in ground (arith, real), (h.in_table q i).1)) in
      omega (arith, bound, length-append (blocks t) (p ∷ []))

  -- `outChild` leaves what stands below the process as it is.
  out-IsBelow : (v : Pcbs) → IsOut s p v → IsBelow v p t
  out-IsBelow v out = (
    subst (λ q. Grows v.p_child v.p_next_sib v.p_prev_sib q t)
        (sym (out.child p (has-ne p (s.p_prnt p) (all_of p t) has-all_of h.parent)))
        (Grows-frame s.p_child s.p_next_sib s.p_prev_sib v.p_child v.p_next_sib v.p_prev_sib
          out.prev (s.p_child p) t
          (λ q i. out.child q (has-ne q (s.p_prnt p) (all_of p t) (has-all_below q i) h.parent))
          (λ q i.
            out.next q (has-ne q p (blocks t) i not_below)
              (has-ne q (s.p_prev_sib p) (blocks t) i h.before))
          h.below.0),
    IsFirst-frame s.p_prev_sib v.p_prev_sib t out.prev h.below.1,
  )

process_run :
    (n : ℕ) (p r : Ptr) (k : Kernel) (v : Pcbs)
    → p ≢ null
    → out_child p (procs k) ≡ ok r v
    → terminate_process_rec (suc n) p k
      ≡ and_then
          (terminate_children (terminate_process_rec n) (max_proc + 1) p (treed k v))
          (λ _. terminate_one p)
unfolding terminate_process_rec
process_run n p r k v real run = ground arith

-- The process and all below it are off every queue and free, in the order in which they end; of the
-- nucleus only the queues, the table and semaphores are changed.
pub record AllEnded (k : Kernel) (f : Ptr → List Ptr) (xs fs ps : List Ptr) (t : Kernel)
    : Type 0 where
  pub table : IsTable t (withouts ps f) (erases ps xs) (fs ++ ps)
  pub counted : (procs t).process_count ≡ (procs k).process_count -ℤ pos (length ps)
  pub rest : t ≡ record k { semds = t.semds; ready_queue = t.ready_queue; ints = t.ints }

module _ (k : Kernel) (f : Ptr → List Ptr) (xs fs : List Ptr) (p : Ptr) (t : Forest) where
  pub terminate_process_rec-AllEnded :
      IsTable k f xs fs
      → IsSubtree (procs k) p t
      → AreInUse k f fs (all_of p t)
      → Returns
          (λ _ u. AllEnded k f xs fs (all_of p t) u)
          (terminate_process_rec (max_proc + 1) p k)
  terminate_process_rec-AllEnded h sub in_use =
      let real = (sub.in_table p (has-all_of (procs k) p t sub)).0 in
      let size = few (procs k) p t sub in
      let (r, v, run, out) = Returns-inv (out_child-IsOut p (procs k) real) in
      let in_use' = treed-AreInUse k v f fs (all_of p t) out.tree in_use in
      let apart = not_below (procs k) p t sub in
      rw (process_run max_proc p r k v real run) (
        Returns-weaken
          (root_After max_proc p (blocks t) (treed k v) f xs fs real
            (AreInUse-part (treed k v) f fs (all_of p t) (p ∷ [])
              (λ q i. ground (arith, has-append q (blocks t) (p ∷ []), i)) in_use')
            apart
            (children_After t max_proc (max_proc + 1) p (treed k v) f xs fs
              (treed-IsTable k v f xs fs out.tree h)
              (AreInUse-part (treed k v) f fs (all_of p t) (blocks t)
                (has-all_below (procs k) p t sub) in_use')
              (Distinct-append_left (blocks t) (p ∷ []) sub.distinct)
              (out-IsBelow (procs k) p t sub v out) real apart (omega (arith, size))
              (omega (arith, size)) (omega (arith, size))))
          λ _ u after. record {
            table = after.table;
            counted =
                after.counted
                ∙ ap (λ (c : Pcbs). c.process_count -ℤ pos (length (all_of p t))) out.tree;
            rest = after.rest;
          })

-- The queues are sound, the processes below `p` form a tree of different blocks of the table, to which
-- neither its parent nor its previous sibling belongs, and each of them is in use and marked with the
-- semaphore on which it waits, if any. Then `terminate_Process` returns from its recursion: all of
-- them are off the ready queue and the semaphores, the others staying in order, their blocks are
-- behind the free ones, those of descendants first, processCount is less by their number, and the
-- scheduler goes on with the first process that is still ready, or halts, waits or panics if none is.
pub terminate_process-IsOver :
    (arch : Arch) (k : Kernel) (f : Ptr → List Ptr) (xs fs : List Ptr) (p : Ptr) (t : Forest)
    → IsTable k f xs fs
    → IsSubtree (procs k) p t
    → AreInUse k f fs (all_of p t)
    → Leaves
        (next_outcome
          (erases (all_of p t) xs)
          ((procs k).process_count -ℤ pos (length (all_of p t)))
          k.soft_blocked_count)
        (IsOver
          (withouts (all_of p t) f)
          (erases (all_of p t) xs)
          (fs ++ all_of p t)
          ((procs k).process_count -ℤ pos (length (all_of p t))))
        (terminate_process arch p k)
unfolding terminate_process
terminate_process-IsOver arch k f xs fs p t h sub in_use =
    let ps = all_of p t in
    Returns-Leaves (terminate_process_rec-AllEnded k f xs fs p t h sub in_use) λ _ u ended.
      subst
        (λ c.
          Leaves (next_outcome (erases ps xs) c k.soft_blocked_count)
            (IsOver (withouts ps f) (erases ps xs) (fs ++ ps) c) (scheduler arch u))
        ended.counted
        (subst
          (λ soft.
            Leaves (next_outcome (erases ps xs) (procs u).process_count soft)
              (IsOver (withouts ps f) (erases ps xs) (fs ++ ps) (procs u).process_count)
              (scheduler arch u))
          (ap (λ (v : Kernel). v.soft_blocked_count) ended.rest)
          (scheduler-IsOver arch u (withouts ps f) (erases ps xs) (fs ++ ps) ended.table))
