-- ===== src/Nucleus/Subtree.antt =====
-- The loop over the children in `terminate_Process_rec` of src/nucleousSystemCalls.c.
use progetto_so.Base.{
  ℕ, suc, ◌+◌, ◌≡◌, ◌≢◌, ◌⊎◌, refl, ap, ◌∙◌, sym, true, false, List, pos, ◌-ℤ◌, [], ◌∷◌, ◌++◌,
  arith, Ptr, null, has, length, Cmd, ok, and_then, Returns, Returns-and_then, Returns-weaken,
}
use mathlib.Core.Path.{subst}
use progetto_so.Pcb.Defs.{Pcbs, max_proc, remove_child, out_child, empty_child}
use progetto_so.Pcb.Ring.{has-append}
use progetto_so.Pcb.Alloc.{IsFreeList}
use progetto_so.Pcb.Forest.{IsCut, OnlyTree}
use progetto_so.Nucleus.Machine.{Kernel}
use progetto_so.Nucleus.Calls.{terminate_children, terminate_process_rec, terminate_one}
use progetto_so.Nucleus.Switch.{procs}
use progetto_so.Nucleus.Good.{IsQueued-same}
use progetto_so.Nucleus.Gone.{IsTable, IsFreeList-frame}
use progetto_so.Nucleus.Ended.{terminate_one-IsTable}
use progetto_so.Nucleus.After.{
  withouts, erases, AreInUse, After, After-one, After-AreInUse, After-append, After-weaken, treed,
}

pub children_run_none :
    (rec : Ptr → Cmd Kernel (Unit {0})) (m : ℕ) (p : Ptr) (k : Kernel)
    → p ≢ null
    → (procs k).p_child p ≡ null
    → terminate_children rec (suc m) p k ≡ ok tt k
unfolding terminate_children empty_child
children_run_none rec m p k real none = ground arith

pub children_run_some :
    (rec : Ptr → Cmd Kernel (Unit {0})) (m : ℕ) (p x : Ptr) (k : Kernel) (v : Pcbs)
    → p ≢ null
    → (procs k).p_child p ≡ x
    → x ≢ null
    → remove_child p (procs k) ≡ ok x v
    → terminate_children rec (suc m) p k
      ≡ and_then (rec x (treed k v)) (λ _. terminate_children rec m p)
unfolding terminate_children empty_child
children_run_some rec m p x k v real is_x real_x run = ground arith

-- A child taken from its parent has none any more.
orphan_run :
    (n : ℕ) (x : Ptr) (k : Kernel)
    → x ≢ null
    → (procs k).p_prnt x ≡ null
    → terminate_process_rec (suc n) x k
      ≡ and_then
          (terminate_children (terminate_process_rec n) (max_proc + 1) x k)
          (λ _. terminate_one x)
unfolding terminate_process_rec out_child
orphan_run n x k real orphan = ground arith

pub treed-IsTable :
    (k : Kernel) (v : Pcbs) (f : Ptr → List Ptr) (xs fs : List Ptr)
    → OnlyTree (procs k) v
    → IsTable k f xs fs
    → IsTable (treed k v) f xs fs
treed-IsTable k v f xs fs only h = record {
  queued = IsQueued-same k (treed k v) f xs h.queued (
    refl,
    ap (λ (t : Pcbs). t.p_next) only,
    ap (λ (t : Pcbs). t.p_prev) only,
    ap (λ (t : Pcbs). t.p_sem_add) only,
    refl,
  );
  free =
      subst (λ e. IsFreeList v.p_next v.p_prev e fs) (sym (ap (λ (t : Pcbs). t.pcb_free_h) only))
        (IsFreeList-frame (procs k).p_next (procs k).p_prev v.p_next v.p_prev (procs k).pcb_free_h
          fs (λ q i. ap (λ (t : Pcbs). t.p_next q) only) (λ q i. ap (λ (t : Pcbs). t.p_prev q) only)
          h.free);
  apart = h.apart;
}

pub treed-AreInUse :
    (k : Kernel) (v : Pcbs) (f : Ptr → List Ptr) (fs ps : List Ptr)
    → OnlyTree (procs k) v
    → AreInUse k f fs ps
    → AreInUse (treed k v) f fs ps
treed-AreInUse k v f fs ps only h = record {
  marked = λ q i.
      subst (λ a. (a ≡ null) ⊎ (has q (f a) ≡ true)) (sym (ap (λ (t : Pcbs). t.p_sem_add q) only))
        (h.marked q i);
  used = h.used;
}

-- The taking of the child is the first change.
pub After-cut :
    (k : Kernel) (v : Pcbs) (f : Ptr → List Ptr) (xs fs ps hs : List Ptr) (p x : Ptr) (t : Kernel)
    → IsCut (procs k) p x v
    → After (treed k v) f xs fs ps hs t
    → After k f xs fs ps (p ∷ x ∷ hs) t
After-cut k v f xs fs ps hs p x t cut a = record {
  table = a.table;
  counted = a.counted ∙ ap (λ (u : Pcbs). u.process_count -ℤ pos (length ps)) cut.tree;
  marks = λ q o. a.marks q o ∙ ap (λ (u : Pcbs). u.p_sem_add q) cut.tree;
  child = λ q o. a.child q (ground arith) ∙ cut.children q (ground arith);
  next = λ q o. a.next q (ground arith) ∙ cut.next q (ground arith);
  first = λ q none. a.first q (cut.prev q none);
  rest = a.rest;
}

-- A process ends when those below it have ended.
pub root_After :
    (n : ℕ) (x : Ptr) (bs : List Ptr) (k : Kernel) (f : Ptr → List Ptr) (xs fs : List Ptr)
    → x ≢ null
    → AreInUse k f fs (x ∷ [])
    → has x bs ≡ false
    → Returns
        (λ _ t. After k f xs fs bs (x ∷ bs) t)
        (terminate_children (terminate_process_rec n) (max_proc + 1) x k)
    → Returns
        (λ _ t. After k f xs fs (bs ++ x ∷ []) (x ∷ bs) t)
        (and_then
          (terminate_children (terminate_process_rec n) (max_proc + 1) x k)
          (λ _. terminate_one x))
root_After n x bs k f xs fs real in_use apart children = Returns-and_then children λ _ t after.
    let in_use' =
      After-AreInUse k t f xs fs bs (x ∷ bs) (x ∷ []) after
        (λ q i. subst (λ r. has r bs ≡ false) (is_root q i) apart) in_use in
    Returns-weaken
      (terminate_one-IsTable t (withouts bs f) (erases bs xs) (fs ++ bs) x after.table
        (in_use'.marked x (ground arith)) real (in_use'.used x (ground arith)))
      λ _ u (table, ended).
        After-weaken k u f xs fs (bs ++ x ∷ []) ((x ∷ bs) ++ []) (x ∷ bs)
          (λ q o. ground (arith, has-append q bs []))
          (After-append k t f xs fs bs (x ∷ bs) (x ∷ []) [] u after
            (After-one t (withouts bs f) (erases bs xs) (fs ++ bs) x u table ended))
  where
    is_root : (q : Ptr) → has q (x ∷ []) ≡ true → x ≡ q
    is_root q i = ground arith

-- A process with no parent ends in the same way.
pub orphan_After :
    (n : ℕ) (x : Ptr) (bs : List Ptr) (k : Kernel) (f : Ptr → List Ptr) (xs fs : List Ptr)
    → x ≢ null
    → (procs k).p_prnt x ≡ null
    → AreInUse k f fs (x ∷ [])
    → has x bs ≡ false
    → Returns
        (λ _ t. After k f xs fs bs (x ∷ bs) t)
        (terminate_children (terminate_process_rec n) (max_proc + 1) x k)
    → Returns (λ _ t. After k f xs fs (bs ++ x ∷ []) (x ∷ bs) t) (terminate_process_rec (suc n) x k)
orphan_After n x bs k f xs fs real orphan in_use apart children =
    rw (orphan_run n x k real orphan) (root_After n x bs k f xs fs real in_use apart children)
