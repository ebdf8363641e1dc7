-- ===== src/Nucleus/Signals.antt =====
-- `verhogen` of src/nucleousSystemCalls.c, called again and again on one semaphore.
use progetto_so.Base.{
  ℕ, suc, ◌<◌, ◌≡◌, ◌≢◌, refl, sym, ap, ◌∙◌, List, [], ◌∷◌, ◌++◌, arith, Ptr, null, length, stop,
  Outcome, Leaves, Leaves-inv,
}
use mathlib.Core.List.{append_assoc, append-nil}
use mathlib.Core.Path.{subst}
use progetto_so.Asl.Defs.{max_add}
use progetto_so.Asl.Remove.{requeued}
use progetto_so.Nucleus.Machine.{Arch, Kernel}
use progetto_so.Nucleus.Calls.{verhogen}
use progetto_so.Nucleus.Switch.{procs}
use progetto_so.Nucleus.Waits.{IsKernel, IsKernel-map}
use progetto_so.Nucleus.Wake.{requeued-same}
use progetto_so.Nucleus.Verhogen.{Raised, verhogen-Raised}

-- From one state to the other the process `p` makes the call so many times, and goes on each time.
pub data Calls (arch : Arch) (p : Ptr) : Kernel → ℕ → Kernel → Type 0 where
  done : {k : Kernel} → Calls arch p k 0 k
  again :
      {k t u : Kernel} {n : ℕ}
      → verhogen arch k ≡ stop (Outcome.load_state p) t
      → Calls arch p t n u
      → Calls arch p k (suc n) u

-- All that waited on the semaphore are ready, and the process that woke them still runs.
abbrev pub AllReady : Arch → (p a : Ptr) → (Ptr → List Ptr) → (xs ys : List Ptr) → Kernel → Type 0
AllReady arch p a f xs ys k =
    (u : Kernel) × Calls arch p k (length ys) u
    × IsKernel u (requeued f a []) (xs ++ ys)
    × (u.current_process ≡ p)

module _ (arch : Arch) (p a : Ptr) where
  signals_in :
      (ys xs : List Ptr) (f : Ptr → List Ptr) (k : Kernel)
      → f a ≡ ys
      → IsKernel k f xs
      → k.current_process ≡ p
      → p ≢ null
      → ((procs k).p_s p).gpr arch.reg_a1 ≡ a
      → 0 < a
      → a < max_add
      → AllReady arch p a f xs ys k
  signals_in [] xs f k queue h is_p real reg positive below = (
    k,
    done,
    subst (λ l. IsKernel k (requeued f a []) l) (sym (append-nil xs))
        (IsKernel-map k f (requeued f a []) xs h (requeued-same k f a xs queue)),
    is_p,
  )
  signals_in (y ∷ ys) xs f k queue h is_p real reg positive below =
      let (t, run, (kernel, still_p, ints, states)) = Leaves-inv (
        subst (λ l. Leaves (Outcome.load_state p) (Raised k f p a xs l) (verhogen arch k)) queue
          (verhogen-Raised arch k f p a xs h is_p real reg positive below)) in
      let (u, calls, ready, at_p) =
        signals_in ys (xs ++ y ∷ []) (requeued f a ys) t (ground arith) kernel still_p real
          (ap (λ m. (m p).gpr arch.reg_a1) states ∙ reg) positive below in
      (
        u,
        again run calls,
        subst (λ l. IsKernel u (requeued f a []) l) (append_assoc xs (y ∷ []) ys)
            (IsKernel-map u (requeued (requeued f a ys) a []) (requeued f a [])
              ((xs ++ y ∷ []) ++ ys) ready (λ b. ground arith)),
        at_p,
      )

  -- Every process that waits on a semaphore is ready after as many calls of V as processes wait:
  -- they come behind the ready ones in the order in which they began to wait, none waits on the
  -- semaphore any more, every other queue is as it was, and the caller runs through all the calls.
  pub verhogen-wakes_all :
      (xs : List Ptr) (f : Ptr → List Ptr) (k : Kernel)
      → IsKernel k f xs
      → k.current_process ≡ p
      → p ≢ null
      → ((procs k).p_s p).gpr arch.reg_a1 ≡ a
      → 0 < a
      → a < max_add
      → AllReady arch p a f xs (f a) k
  verhogen-wakes_all xs f k h is_p real reg positive below =
      signals_in (f a) xs f k refl h is_p real reg positive below
