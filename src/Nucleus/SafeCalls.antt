-- ===== src/Nucleus/SafeCalls.antt =====
-- The system calls of src/nucleousSystemCalls.c end without a fault and keep the queues.
use progetto_so.Base.{
  ◌<◌, ◌≡◌, inl, inr, refl, sym, ap, ◌∙◌, true, Bool-cases, List, [], ◌∷◌, arith, pos, ◌-ℤ◌, ltb_ℤ,
  Ptr, has, Returns-inv, Ends, ends, Leaves-Ends,
}
use mathlib.Core.Path.{subst}
use mathlib.Core.List.{append-nil}
use progetto_so.Asl.Defs.{Semds, max_add}
use progetto_so.Asl.Blocked.{enqueued}
use progetto_so.Asl.Remove.{requeued}
use progetto_so.Nucleus.Machine.{Arch, Kernel}
use progetto_so.Nucleus.Sched.{scheduler}
use progetto_so.Nucleus.Calls.{passeren, verhogen, wait_for_io}
use progetto_so.Nucleus.Lines.{is_device_line}
use progetto_so.Nucleus.Switch.{procs}
use progetto_so.Nucleus.Waits.{IsKernel}
use progetto_so.Nucleus.Block.{blocked, AfterBlock, blocks}
use progetto_so.Nucleus.Passeren.{lowered, passeren_run_blocks, passeren_run_goes_on}
use progetto_so.Nucleus.Verhogen.{Raised, verhogen-Raised}
use progetto_so.Nucleus.WaitIo.{asking, asked_sem, wait_for_io_run}
use progetto_so.Nucleus.Moved.{moved-IsGood}
use progetto_so.Nucleus.Good.{IsQueued, IsRunning, IsGood, SameQueues, IsQueued-same}
use progetto_so.Nucleus.SafeSched.{scheduler-Ends}

module _ (arch : Arch) (k : Kernel) (f : Ptr → List Ptr) (xs : List Ptr) (p : Ptr) where
  -- A blocked process leaves sound queues behind, and none runs.
  pub after_block :
      (a : Ptr) (s : Semds)
      → IsQueued k f xs
      → AfterBlock k f p a xs s
      → Ends IsGood (scheduler arch (blocked k s))
  after_block a s h kernel =
      scheduler-Ends arch (blocked k s) (enqueued f a p) xs
        (record { kernel = kernel; pool = h.pool }) (λ none. refl)

  pub runs_on :
      (t : Kernel)
      → IsQueued k f xs
      → IsRunning p f xs
      → SameQueues k t
      → t.current_process ≡ p
      → IsGood t
  runs_on t h r same is_p = record {
    queues = f;
    ready = xs;
    queued = IsQueued-same k t f xs h same;
    running = inr (subst (λ q. IsRunning q f xs) (sym is_p) r);
  }

module _ (arch : Arch) (k : Kernel) (f : Ptr → List Ptr) (xs : List Ptr) (p : Ptr) where
  pub passeren-Ends :
      IsQueued k f xs
      → IsRunning p f xs
      → k.current_process ≡ p
      → 0 < ((procs k).p_s p).gpr arch.reg_a1
      → ((procs k).p_s p).gpr arch.reg_a1 < max_add
      → Ends IsGood (passeren arch k)
  passeren-Ends h r is_p positive below =
      let a = ((procs k).p_s p).gpr arch.reg_a1 in
      elim (Bool-cases (ltb_ℤ (k.ints a -ℤ pos 1) (pos 0))) [
        | inl waits ↦
            let h' : IsQueued (lowered k a) f xs =
              IsQueued-same k (lowered k a) f xs h (refl, refl, refl, refl, refl) in
            let (full, s, run, after) =
              Returns-inv (blocks (lowered k a) f p a xs h'.kernel r.0 r.1 r.2 positive below) in
            rw
              (passeren_run_blocks arch k p a full s is_p r.0 refl (omega (arith, positive)) waits
                run)
              (after_block arch (lowered k a) f xs p a s h' after)
        | inr goes ↦
            rw (passeren_run_goes_on arch k p a is_p r.0 refl (omega (arith, positive)) goes) (
              ends (
                runs_on arch k f xs p (record (lowered k a) { current_process = p }) h r
                  (refl, refl, refl, refl, refl) refl))
      ]

  raised-IsGood :
      (a : Ptr) (w : List Ptr) (t : Kernel)
      → f a ≡ w
      → k.current_process ≡ p
      → IsQueued k f xs
      → IsRunning k.current_process f xs
      → Raised k f p a xs w t
      → IsGood t
  raised-IsGood a [] t queue is_k h r (kernel, is_p, ints, states) =
      moved-IsGood f a xs [] [] (λ q i. absurd (cc)) (λ q i. absurd (cc)) k t h (inr r)
        (subst (λ l. IsKernel t (requeued f a []) l) (sym (append-nil xs)) kernel) (is_p ∙ sym is_k)
  raised-IsGood a (y ∷ ys) t queue is_k h r (kernel, is_p, ints, states) =
      moved-IsGood f a xs ys (y ∷ []) (λ q i. ap (has q) queue ∙ ground (arith, i))
        (λ q i. ap (has q) queue ∙ ground (arith, i)) k t h (inr r) kernel (is_p ∙ sym is_k)

  pub verhogen-Ends :
      IsQueued k f xs
      → IsRunning p f xs
      → k.current_process ≡ p
      → 0 < ((procs k).p_s p).gpr arch.reg_a1
      → ((procs k).p_s p).gpr arch.reg_a1 < max_add
      → Ends IsGood (verhogen arch k)
  verhogen-Ends h r is_p positive below =
      let a = ((procs k).p_s p).gpr arch.reg_a1 in
      Leaves-Ends (verhogen-Raised arch k f p a xs h.kernel is_p r.0 refl positive below) λ t after.
        raised-IsGood a (f a) t refl is_p h (subst (λ q. IsRunning q f xs) (sym is_p) r) after

  pub asking-IsQueued : (a : Ptr) → IsQueued k f xs → IsQueued (asking k a) f xs
  asking-IsQueued a h = IsQueued-same k (asking k a) f xs h (refl, refl, refl, refl, refl)

  pub wait_for_io-Ends :
      IsQueued k f xs
      → IsRunning p f xs
      → k.current_process ≡ p
      → is_device_line arch (((procs k).p_s p).gpr arch.reg_a1) ≡ true
      → 0 < asked_sem arch k p
      → asked_sem arch k p < max_add
      → Ends IsGood (wait_for_io arch k)
  wait_for_io-Ends h r is_p valid positive below =
      let a = asked_sem arch k p in
      let h' = asking-IsQueued a h in
      let (full, s, run, after) =
        Returns-inv (blocks (asking k a) f p a xs h'.kernel r.0 r.1 r.2 positive below) in
      rw
        (wait_for_io_run arch k p a (((procs k).p_s p).gpr arch.reg_a1)
          (((procs k).p_s p).gpr arch.reg_a2) (((procs k).p_s p).gpr arch.reg_a3) full s is_p r.0
          refl refl refl valid refl (omega (arith, positive)) run)
        (after_block arch (asking k a) f xs p a s h' after)
