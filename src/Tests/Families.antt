-- ===== src/Tests/Families.antt =====
-- A process that ends with its family: 4 is the parent of 3, which runs; 1 and 2 stand below 3 and
-- wait at 100; 4 is ready, and 5 is free.
use progetto_so.Base.{
  Bool-cases, false, ◌≡◌, refl, ◌==◌, inl, inr, true, false, [], ◌∷◌, arith, pos, ◌-ℤ◌, Ptr, update,
  has, Leaves, Outcome,
}
use progetto_so.Pcb.Ring.{ring}
use progetto_so.Pcb.Forest.{Forest, leafless, tree}
use progetto_so.Asl.Same.{Represents-same}
use progetto_so.Nucleus.Machine.{Kernel}
use progetto_so.Nucleus.Calls.{terminate_process}
use progetto_so.Nucleus.Switch.{procs}
use progetto_so.Nucleus.Gone.{IsTable}
use progetto_so.Nucleus.After.{AreInUse, withouts}
use progetto_so.Nucleus.Over.{IsOver}
use progetto_so.Nucleus.Terminated.{IsSubtree, all_of, terminate_process-IsOver}
use progetto_so.Tests.Kernels.{arch}
use progetto_so.Tests.Queues.{to_null}
use progetto_so.Tests.Waiting.{waiters}
use progetto_so.Tests.Calls.{sleeping, sleeping-IsKernel}

abbrev family : Kernel
family = record (sleeping 100 0 0 0) {
  semds = record ((sleeping 100 0 0 0).semds) {
    pcbs = record (procs (sleeping 100 0 0 0)) {
      p_next = update (procs (sleeping 100 0 0 0)).p_next 5 5;
      p_prev = update (procs (sleeping 100 0 0 0)).p_prev 5 5;
      pcb_free_h = 5;
      p_prnt = update (update (update to_null 3 4) 1 3) 2 1;
      p_child = update (update (update to_null 4 3) 3 1) 1 2;
      p_next_sib = to_null;
      p_prev_sib = to_null;
    };
  };
}

abbrev below : Forest
below = tree 1 (tree 2 leafless leafless) leafless

family-IsTable : IsTable family (waiters 100) (4 ∷ []) (5 ∷ [])
family-IsTable =
    let h = sleeping-IsKernel 100 0 0 0 (omega arith) (omega arith) in
    record {
      queued = record {
        kernel = record {
          waiting =
              Represents-same (sleeping 100 0 0 0).semds (procs family) (waiters 100) h.waiting
                (λ b q i. (ground (arith, i), ground (arith, i), refl));
          ready = ring {tp = 4} [] refl refl (refl, tt) (refl, refl);
          apart = h.apart;
        };
        pool = λ q i. ground arith;
      };
      free = (refl, refl, (refl, tt), (refl, refl));
      apart = λ q i. (ground (arith, i), λ b. ground (arith, i));
    }

family-IsSubtree : IsSubtree (procs family) 3 below
family-IsSubtree = record {
  below = ((refl, omega arith, (refl, omega arith, refl, tt, refl), refl, refl), refl);
  distinct = (refl, (refl, (refl, tt)));
  in_table = λ q i. ground arith;
  parent = refl;
  before = refl;
}

waits :
    (q : Ptr)
    → has q (all_of 3 below) ≡ true
    → (q == 3) ≡ false
    → has q (waiters 100 ((procs family).p_sem_add q)) ≡ true
waits q i h = ground arith

family-AreInUse : AreInUse family (waiters 100) (5 ∷ []) (all_of 3 below)
family-AreInUse = record {
  marked =
      λ q i. elim (Bool-cases (q == 3)) [ inl h ↦ inl (ground arith) | inr h ↦ inr (waits q i h) ];
  used = λ q i. ground arith;
}

terminate_process-IsOver_example :
    Leaves
      (Outcome.load_state 4)
      (IsOver
        (withouts (2 ∷ 1 ∷ 3 ∷ []) (waiters 100))
        (4 ∷ [])
        (5 ∷ 2 ∷ 1 ∷ 3 ∷ [])
        ((procs family).process_count -ℤ pos 3))
      (terminate_process arch 3 family)
terminate_process-IsOver_example =
    terminate_process-IsOver arch family (waiters 100) (4 ∷ []) (5 ∷ []) 3 below family-IsTable
      family-IsSubtree family-AreInUse
