-- ===== src/Nucleus/Children.antt =====
-- All that stand below a process end with it: `terminate_Process_rec` of
-- src/nucleousSystemCalls.c.
use progetto_so.Base.{
  ℕ, zero, suc, ◌+◌, ◌≤◌, ◌<◌, ◌≡◌, ◌≢◌, refl, sym, true, false, List, [], ◌∷◌, ◌++◌, arith, Ptr,
  null, has, length, length-append, -ℤ_zero, ok, Returns, Returns-inv, returned, Returns-and_then,
  Returns-weaken,
}
use mathlib.Core.Path.{subst}
use mathlib.Core.List.{append-nil}
use progetto_so.Pcb.Defs.{max_proc, remove_child}
use progetto_so.Pcb.Ring.{
  Distinct, has-append, Distinct-append_left, Distinct-append_right, Distinct-append_apart, has-ne,
}
use progetto_so.Pcb.Forest.{
  Forest, leafless, tree, blocks, IsBelow, has-below, has-behind, remove_child-IsCut,
}
use progetto_so.Nucleus.Machine.{Kernel}
use progetto_so.Nucleus.Calls.{terminate_children, terminate_process_rec}
use progetto_so.Nucleus.Switch.{procs}
use progetto_so.Nucleus.Gone.{IsTable}
use progetto_so.Nucleus.After.{
  withouts, erases, AreInUse, AreInUse-part, After, After-AreInUse, treed,
}
use progetto_so.Nucleus.Subtree.{
  children_run_none, children_run_some, treed-IsTable, treed-AreInUse, orphan_After,
}
use progetto_so.Nucleus.Cut.{ne_next, cut_below, cut_behind, one_After}

-- The loop takes the children one by one, each with all below it, and ends when none is left.
pub children_After :
    (t : Forest) (n m : ℕ) (p : Ptr) (k : Kernel) (f : Ptr → List Ptr) (xs fs : List Ptr)
    → IsTable k f xs fs
    → AreInUse k f fs (blocks t)
    → Distinct (blocks t)
    → IsBelow (procs k) p t
    → p ≢ null
    → has p (blocks t) ≡ false
    → length (blocks t) ≤ max_proc
    → length (blocks t) ≤ n
    → length (blocks t) < m
    → Returns
        (λ _ u. After k f xs fs (blocks t) (p ∷ blocks t) u)
        (terminate_children (terminate_process_rec n) m p k)
children_After t n zero p k f xs fs h in_use d is_below real out pool deep wide =
    absurd (omega (arith, wide))
children_After leafless n (suc m) p k f xs fs h in_use d (none, first) real out pool deep wide =
    rw (children_run_none (terminate_process_rec n) m p k real none) (
      returned (record {
        table = subst (λ l. IsTable k f xs l) (sym (append-nil fs)) h;
        counted = sym (-ℤ_zero (procs k).process_count);
        marks = λ q o. refl;
        child = λ q o. refl;
        next = λ q o. refl;
        first = λ q e. e;
        rest = refl;
      }))
children_After (tree x below behind) zero (suc m) p k f xs fs h in_use d is_below real out pool deep
      wide =
    absurd (omega (arith, length-append (blocks below) (x ∷ blocks behind), deep))
children_After (tree x below behind) (suc n) (suc m) p k f xs fs h in_use d
      ((is_x, real_x, grows, first_below, next), first) real out pool deep wide =
    let bs = blocks below in
    let size = length-append bs (x ∷ blocks behind) in
    let d' : has x (blocks behind) ≡ false × Distinct (blocks behind) =
      Distinct-append_right bs (x ∷ blocks behind) d in
    let x_out : has x bs ≡ false =
      Distinct-append_apart bs (x ∷ blocks behind) x d (ground arith) in
    let other : x ≢ (procs k).p_next_sib x =
      ne_next (procs k).p_child (procs k).p_next_sib (procs k).p_prev_sib x ((procs k).p_next_sib x)
        behind next real_x d'.0 in
    let (r, v, run, (is_r, cut)) =
      Returns-inv (remove_child-IsCut p x (procs k) real real_x other is_x first) in
    let in_use' = treed-AreInUse k v f fs (blocks (tree x below behind)) cut.tree in_use in
    rw
      (children_run_some (terminate_process_rec (suc n)) m p x k v real is_x real_x
        (subst (λ c. remove_child p (procs k) ≡ ok c v) is_r run))
      (Returns-and_then
        (orphan_After n x bs (treed k v) f xs fs real_x cut.orphan
          (AreInUse-part (treed k v) f fs (blocks (tree x below behind)) (x ∷ [])
            (λ q i. ground (arith, has-append q bs (x ∷ blocks behind), i)) in_use')
          x_out
          (children_After below n (max_proc + 1) x (treed k v) f xs fs
            (treed-IsTable k v f xs fs cut.tree h)
            (AreInUse-part (treed k v) f fs (blocks (tree x below behind)) bs
              (has-below x below behind) in_use')
            (Distinct-append_left bs (x ∷ blocks behind) d)
            (cut_below k v p x below behind cut grows first_below out x_out) real_x x_out
            (omega (arith, size, pool)) (omega (arith, size, deep)) (omega (arith, size, pool))))
        λ _ t after.
          let elsewhere : (q : Ptr) → has q (blocks behind) ≡ true → has q (x ∷ bs) ≡ false = λ q i.
            ground (
              arith,
              Distinct-append_apart bs (x ∷ blocks behind) q d (ground (arith, i)),
              has-ne q x (blocks behind) i d'.0,
            ) in
          Returns-weaken
            (children_After behind (suc n) m p t (withouts (bs ++ x ∷ []) f)
              (erases (bs ++ x ∷ []) xs) (fs ++ (bs ++ x ∷ [])) after.table
              (After-AreInUse (treed k v) t f xs fs (bs ++ x ∷ []) (x ∷ bs) (blocks behind) after
                (λ q i. ground (arith, has-append q bs (x ∷ []), elsewhere q i))
                (AreInUse-part (treed k v) f fs (blocks (tree x below behind)) (blocks behind)
                  (has-behind x below behind) in_use'))
              d'.1
              (cut_behind k v p x below behind f xs fs (bs ++ x ∷ []) t cut after next out
                elsewhere)
              real (ground (arith, has-append p bs (x ∷ blocks behind), out))
              (omega (arith, size, pool)) (omega (arith, size, deep)) (omega (arith, size, wide)))
            λ _ u rest. one_After k v p x below behind f xs fs t u cut after rest)
