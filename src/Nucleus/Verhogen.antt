-- ===== src/Nucleus/Verhogen.antt =====
-- `verhogen` of src/nucleousSystemCalls.c.
use progetto_so.Base.{
  ◌<◌, ◌≡◌, ◌≢◌, refl, List, [], ◌∷◌, ◌++◌, arith, pos, ◌+ℤ◌, Ptr, null, update, ok, stop, Outcome,
  Leaves, left,
}
use progetto_so.Pcb.Defs.{Pcbs, insert_proc_q}
use progetto_so.Asl.Defs.{Semds, max_add, remove_blocked}
use progetto_so.Asl.Remove.{requeued}
use progetto_so.Nucleus.Machine.{Arch, Kernel}
use progetto_so.Nucleus.Sched.{load_process}
use progetto_so.Nucleus.Calls.{verhogen}
use progetto_so.Nucleus.Switch.{procs}
use progetto_so.Nucleus.Waits.{IsKernel}
use progetto_so.Nucleus.Wake.{waked, wakes, wakes_none}

-- The semaphore is incremented.
abbrev raised : Kernel → Ptr → Kernel
raised k a = record k { mutex = a; ints = update k.ints a (k.ints a +ℤ pos 1) }

abbrev running : Kernel → Ptr → Kernel
running k p = record k { current_process = p }

-- The processes that are ready, and those that still wait, after the oldest of a queue is woken.
abbrev pub ready_after : (xs waiting : List Ptr) → List Ptr
ready_after xs [] = xs
ready_after xs (y ∷ ys) = xs ++ y ∷ []

abbrev pub still_waiting : List Ptr → List Ptr
still_waiting [] = []
still_waiting (y ∷ ys) = ys

verhogen_run_wakes :
    (arch : Arch) (k : Kernel) (p a y tp : Ptr) (s : Semds) (t : Pcbs)
    → k.current_process ≡ p
    → p ≢ null
    → ((procs k).p_s p).gpr arch.reg_a1 ≡ a
    → a ≢ null
    → remove_blocked a k.semds ≡ ok y s
    → y ≢ null
    → insert_proc_q k.ready_queue y s.pcbs ≡ ok tp t
    → verhogen arch k ≡ stop (Outcome.load_state p) (running (waked (raised k a) s t tp) p)
unfolding verhogen load_process
verhogen_run_wakes arch k p a y tp s t is_p real reg real_a removed real_y inserted = ground arith

verhogen_run_alone :
    (arch : Arch) (k : Kernel) (p a : Ptr)
    → k.current_process ≡ p
    → p ≢ null
    → ((procs k).p_s p).gpr arch.reg_a1 ≡ a
    → a ≢ null
    → remove_blocked a k.semds ≡ ok null k.semds
    → verhogen arch k ≡ stop (Outcome.load_state p) (running (raised k a) p)
unfolding verhogen load_process
verhogen_run_alone arch k p a is_p real reg real_a none = ground arith

-- What V leaves, by the queue of the semaphore.
abbrev pub Raised :
    Kernel → (Ptr → List Ptr) → (p a : Ptr) → (xs waiting : List Ptr) → Kernel → Type 0
Raised k f p a xs waiting t =
    IsKernel t (requeued f a (still_waiting waiting)) (ready_after xs waiting)
    × (t.current_process ≡ p)
    × (t.ints ≡ update k.ints a (k.ints a +ℤ pos 1))
    × ((procs t).p_s ≡ (procs k).p_s)

raises :
    (arch : Arch) (k : Kernel) (f : Ptr → List Ptr) (p a : Ptr) (xs waiting : List Ptr)
    → f a ≡ waiting
    → IsKernel k f xs
    → k.current_process ≡ p
    → p ≢ null
    → ((procs k).p_s p).gpr arch.reg_a1 ≡ a
    → 0 < a
    → a < max_add
    → Leaves (Outcome.load_state p) (Raised k f p a xs waiting) (verhogen arch k)
raises arch k f p a xs [] queue h is_p real reg positive below =
    let (none, same) = wakes_none k f a xs h queue below in
    rw (verhogen_run_alone arch k p a is_p real reg (omega (arith, positive)) none) (
      left (
        record { waiting = same.waiting; ready = same.ready; apart = same.apart },
        refl,
        refl,
        refl,
      ))
raises arch k f p a xs (y ∷ ys) queue h is_p real reg positive below =
    let w = wakes (λ st. st) k f a y ys xs h queue below in
    rw
      (verhogen_run_wakes arch k p a y w.tail w.semds w.table is_p real reg
        (omega (arith, positive)) w.removed w.real w.inserted)
      (left (
        record { waiting = w.kernel.waiting; ready = w.kernel.ready; apart = w.kernel.apart },
        refl,
        refl,
        w.states,
      ))

-- V on a semaphore between the sentinels' addresses: it is one more; the process that has waited
-- longest on it, if any, goes behind the ready ones, the others that wait stay in order, and every
-- other queue is as it was. The running process goes on, and no saved state is changed.
pub verhogen-Raised :
    (arch : Arch) (k : Kernel) (f : Ptr → List Ptr) (p a : Ptr) (xs : List Ptr)
    → IsKernel k f xs
    → k.current_process ≡ p
    → p ≢ null
    → ((procs k).p_s p).gpr arch.reg_a1 ≡ a
    → 0 < a
    → a < max_add
    → Leaves (Outcome.load_state p) (Raised k f p a xs (f a)) (verhogen arch k)
verhogen-Raised arch k f p a xs h is_p real reg positive below =
    raises arch k f p a xs (f a) refl h is_p real reg positive below
