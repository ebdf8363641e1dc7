-- ===== src/Nucleus/Clock.antt =====
-- `handleIntervalTimerInterrupt` of src/interrupts.c: the clock wakes all that wait for it.
use progetto_so.Base.{
  ℕ, zero, suc, ◌+◌, ◌<◌, ◌≡◌, ◌≢◌, refl, sym, ap, ◌∙◌, List, [], ◌∷◌, ◌++◌, arith, pos, ◌-ℤ◌,
  -ℤ_step, -ℤ_zero, Ptr, null, update, length, ok, Returns, returned, Returns-inv, Returns-weaken,
  Cmd, ◌>>=◌,
}
use mathlib.Core.List.{append_assoc, append-nil}
use mathlib.Core.Path.{subst}
use progetto_so.Pcb.Defs.{Pcbs, insert_proc_q, max_proc}
use progetto_so.Asl.Defs.{Semds, max_add, remove_blocked}
use progetto_so.Asl.Marks.{Represents-length}
use progetto_so.Asl.Remove.{requeued}
use progetto_so.Nucleus.Machine.{Arch, Kernel, clock_semaphore, in_semds}
use progetto_so.Nucleus.Interrupts.{wake_loop, handle_interval_timer_interrupt}
use progetto_so.Nucleus.Switch.{procs}
use progetto_so.Nucleus.Waits.{IsKernel, IsKernel-map}
use progetto_so.Nucleus.Wake.{waked, wakes, wakes_none}

-- From the removal that comes before the `while`, or at the end of its body.
abbrev wake_all : Arch → ℕ → Cmd Kernel (Unit {0})
wake_all arch n = in_semds (remove_blocked (clock_semaphore arch)) >>= wake_loop arch n

-- One round: the process is ready, and one process less waits for a device.
abbrev less_blocked : Kernel → Kernel
less_blocked k = record k { soft_blocked_count = k.soft_blocked_count -ℤ pos 1 }

wake_all_step :
    (arch : Arch) (n : ℕ) (k : Kernel) (y tp : Ptr) (s : Semds) (t : Pcbs)
    → remove_blocked (clock_semaphore arch) k.semds ≡ ok y s
    → y ≢ null
    → insert_proc_q k.ready_queue y s.pcbs ≡ ok tp t
    → wake_all arch (suc n) k ≡ wake_all arch n (less_blocked (waked k s t tp))
unfolding wake_loop
wake_all_step arch n k y tp s t removed real inserted = ground arith

wake_all_end :
    (arch : Arch) (n : ℕ) (k : Kernel)
    → remove_blocked (clock_semaphore arch) k.semds ≡ ok null k.semds
    → wake_all arch (suc n) k ≡ ok tt k
unfolding wake_loop
wake_all_end arch n k none = ground arith

-- The processes `ys` are ready behind `xs`, and none waits on `a`; nothing else is changed.
pub record AllWoken (k : Kernel) (f : Ptr → List Ptr) (a : Ptr) (xs ys : List Ptr) (t : Kernel)
    : Type 0 where
  pub kernel : IsKernel t (requeued f a []) (xs ++ ys)
  pub soft : t.soft_blocked_count ≡ k.soft_blocked_count -ℤ pos (length ys)
  pub states : (procs t).p_s ≡ (procs k).p_s
  pub rest : t ≡ record k {
    semds = t.semds;
    ready_queue = t.ready_queue;
    soft_blocked_count = t.soft_blocked_count;
  }

module _ (arch : Arch) where
  wake_all-AllWoken :
      (n : ℕ) (k : Kernel) (f : Ptr → List Ptr) (xs ys : List Ptr)
      → IsKernel k f xs
      → f (clock_semaphore arch) ≡ ys
      → clock_semaphore arch < max_add
      → length ys < n
      → Returns (λ _ t. AllWoken k f (clock_semaphore arch) xs ys t) (wake_all arch n k)
  wake_all-AllWoken zero k f xs ys h queue below fuel = absurd (omega (arith, fuel))
  wake_all-AllWoken (suc n) k f xs [] h queue below fuel =
      let (none, same) = wakes_none k f (clock_semaphore arch) xs h queue below in
      rw (wake_all_end arch n k none) (
        returned (record {
          kernel =
              subst (λ l. IsKernel k (requeued f (clock_semaphore arch) []) l) (sym (append-nil xs))
                same;
          soft = sym (-ℤ_zero k.soft_blocked_count);
          states = refl;
          rest = refl;
        }))
  wake_all-AllWoken (suc n) k f xs (y ∷ ys) h queue below fuel =
      let w = wakes (λ st. st) k f (clock_semaphore arch) y ys xs h queue below in
      rw (wake_all_step arch n k y w.tail w.semds w.table w.removed w.real w.inserted) (
        Returns-weaken
          (wake_all-AllWoken n (less_blocked (waked k w.semds w.table w.tail))
            (requeued f (clock_semaphore arch) ys) (xs ++ y ∷ []) ys
            (record { waiting = w.kernel.waiting; ready = w.kernel.ready; apart = w.kernel.apart })
            (ground arith) below (omega (arith, fuel)))
          λ _ t after. record {
            kernel =
                subst (λ l. IsKernel t (requeued f (clock_semaphore arch) []) l)
                  (append_assoc xs (y ∷ []) ys)
                  (IsKernel-map t
                    (requeued (requeued f (clock_semaphore arch) ys) (clock_semaphore arch) [])
                    (requeued f (clock_semaphore arch) []) ((xs ++ y ∷ []) ++ ys) after.kernel
                    (λ b. ground arith));
            soft = after.soft ∙ -ℤ_step k.soft_blocked_count (length ys);
            states = after.states ∙ w.states;
            rest = after.rest;
          })

handler_run :
    (arch : Arch) (k t : Kernel)
    → wake_all arch (max_proc + 1) (record k { interval_timer = 100000 }) ≡ ok tt t
    → handle_interval_timer_interrupt arch k
      ≡ ok tt (record t { ints = update t.ints (clock_semaphore arch) (pos 0) })
unfolding handle_interval_timer_interrupt wake_loop
handler_run arch k t run = ground arith

-- What the clock's interrupt leaves, when `ys` wait on the clock's semaphore.
abbrev pub Ticked : Arch → Kernel → (Ptr → List Ptr) → (xs ys : List Ptr) → Kernel → Type 0
Ticked arch k f xs ys t =
    IsKernel t (requeued f (clock_semaphore arch) []) (xs ++ ys)
    × (t.soft_blocked_count ≡ k.soft_blocked_count -ℤ pos (length ys))
    × (t.ints ≡ update k.ints (clock_semaphore arch) (pos 0))
    × (t.interval_timer ≡ 100000)
    × (t.current_process ≡ k.current_process)
    × ((procs t).p_s ≡ (procs k).p_s)

-- The interrupt of the interval timer comes to an end: after at most forty rounds of its loop every
-- process that waits on the clock's semaphore is behind the ready ones, in the order in which they
-- came, every other queue is as it was, `softBlockedCount` is less by their number, the semaphore is
-- zero, the timer is loaded, and the running process and all saved states are the same.
pub interval_timer-Ticked :
    (arch : Arch) (k : Kernel) (f : Ptr → List Ptr) (xs : List Ptr)
    → IsKernel k f xs
    → clock_semaphore arch < max_add
    → Returns
        (λ _ t. Ticked arch k f xs (f (clock_semaphore arch)) t)
        (handle_interval_timer_interrupt arch k)
interval_timer-Ticked arch k f xs h below =
    let ys = f (clock_semaphore arch) in
    let (_, t, run, after) = Returns-inv (
      wake_all-AllWoken arch (max_proc + 1) (record k { interval_timer = 100000 }) f xs ys
        (record { waiting = h.waiting; ready = h.ready; apart = h.apart }) refl below
        (omega (arith, Represents-length k.semds f (clock_semaphore arch) h.waiting))) in
    rw (handler_run arch k t run) (
      returned (
        record {
          waiting = after.kernel.waiting;
          ready = after.kernel.ready;
          apart = after.kernel.apart;
        },
        after.soft,
        ap (λ (u : Kernel). update u.ints (clock_semaphore arch) (pos 0)) after.rest,
        ap (λ (u : Kernel). u.interval_timer) after.rest,
        ap (λ (u : Kernel). u.current_process) after.rest,
        after.states,
      ))
