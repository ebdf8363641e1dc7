-- ===== src/Nucleus/Moved.antt =====
-- What is left of sound queues when processes are moved from a semaphore to the ready queue.
use progetto_so.Base.{
  ◌≤◌, ◌≡◌, ◌⊎◌, sym, ◌∙◌, true, false, inl, inr, Bool-cases, List, ◌++◌, arith, Ptr, null, has,
  ◌==◌,
}
use mathlib.Core.Path.{subst}
use progetto_so.Pcb.Defs.{max_proc}
use progetto_so.Pcb.Ring.{has-append}
use progetto_so.Asl.Marks.{Represents-IsWaiter}
use progetto_so.Asl.Remove.{requeued}
use progetto_so.Nucleus.Machine.{Kernel}
use progetto_so.Nucleus.Waits.{IsKernel}
use progetto_so.Nucleus.Good.{IsQueued, IsRunning, IsGood}

-- The blocks of the one list are among those of the other.
abbrev pub Among : List Ptr → List Ptr → Type 0
Among xs ys = (q : Ptr) → has q xs ≡ true → has q ys ≡ true

module _ (f : Ptr → List Ptr) (a : Ptr) (xs ys zs : List Ptr) where
  module _ (stay : Among ys (f a)) (move : Among zs (f a)) where
    pub moved-IsRunning : (p : Ptr) → IsRunning p f xs → IsRunning p (requeued f a ys) (xs ++ zs)
    moved-IsRunning p (real, pool, (out, nowhere)) = (real, pool, (out_of_ready, out_of_queues))
      where
        out_of_ready : has p (xs ++ zs) ≡ false
        out_of_ready = elim (Bool-cases (has p zs)) [
          | inl i ↦ absurd (ground (arith, move p i, nowhere a))
          | inr o ↦ ground (arith, has-append p xs zs, out, o)
        ]

        out_of_rest : has p ys ≡ false
        out_of_rest = elim (Bool-cases (has p ys)) [
          | inl i ↦ absurd (ground (arith, stay p i, nowhere a))
          | inr o ↦ o
        ]

        out_of_queues : (b : Ptr) → has p (requeued f a ys b) ≡ false
        out_of_queues b = elim (Bool-cases (b == a)) [
          | inl h ↦ rw h out_of_rest
          | inr h ↦ rw h (nowhere b)
        ]

    pub moved-IsQueued :
        (k t : Kernel)
        → IsQueued k f xs
        → IsKernel t (requeued f a ys) (xs ++ zs)
        → IsQueued t (requeued f a ys) (xs ++ zs)
    moved-IsQueued k t h kernel = record { kernel = kernel; pool = in_pool }
      where
        in_pool : (q : Ptr) → has q (xs ++ zs) ≡ true → q ≤ max_proc
        in_pool q i = elim (Bool-cases (has q zs)) [
          | inl j ↦ (Represents-IsWaiter k.semds f a q h.kernel.waiting (move q j)).3
          | inr o ↦ h.pool q (ground (arith, has-append q xs zs, i, o))
        ]

    -- The running process, if there is one, still runs.
    pub moved-IsGood :
        (k t : Kernel)
        → IsQueued k f xs
        → (k.current_process ≡ null) ⊎ IsRunning k.current_process f xs
        → IsKernel t (requeued f a ys) (xs ++ zs)
        → t.current_process ≡ k.current_process
        → IsGood t
    moved-IsGood k t h runs kernel same = record {
      queues = requeued f a ys;
      ready = xs ++ zs;
      queued = moved-IsQueued k t h kernel;
      running = elim runs [
        | inl none ↦ inl (same ∙ none)
        | inr r ↦ inr (
            subst (λ q. IsRunning q (requeued f a ys) (xs ++ zs)) (sym same)
              (moved-IsRunning k.current_process r))
      ];
    }
