-- ===== src/Nucleus/Waits.antt =====
-- The ready queue and the semaphores together: each process waits in one place at most.
use progetto_so.Base.{
  ◌≡◌, sym, ap, ◌∙◌, true, false, List, ◌∷◌, arith, Ptr, has, Outcome, Leaves, Leaves-weaken,
}
use mathlib.Core.Path.{subst}
use progetto_so.Pcb.Defs.{Pcbs}
use progetto_so.Pcb.Queue.{OnlyLinks}
use progetto_so.Asl.Entries.{Represents}
use progetto_so.Asl.Same.{SameBlock, Represents-same, Represents-map}
use progetto_so.Nucleus.Machine.{Arch, Kernel}
use progetto_so.Nucleus.Sched.{scheduler}
use progetto_so.Nucleus.Switch.{procs, IsReady, Runs, switched, scheduler-switches}

-- The processes `xs` are ready, oldest first, those of `f a` wait on the semaphore `a`, and none
-- does both.
pub record IsKernel (k : Kernel) (f : Ptr → List Ptr) (xs : List Ptr) : Type 0 where
  pub waiting : Represents k.semds f
  pub ready : IsReady k xs
  pub apart : (b q : Ptr) → has q (f b) ≡ true → has q xs ≡ false

-- Only the values of the map matter.
pub IsKernel-map :
    (k : Kernel) (f g : Ptr → List Ptr) (xs : List Ptr)
    → IsKernel k f xs
    → ((b : Ptr) → f b ≡ g b)
    → IsKernel k g xs
IsKernel-map k f g xs h same = record {
  waiting = Represents-map k.semds f g h.waiting same;
  ready = h.ready;
  apart = λ b q i. h.apart b q (ap (has q) (same b) ∙ i);
}

-- The process is neither ready nor waiting.
abbrev pub Outside : Ptr → (Ptr → List Ptr) → List Ptr → Type 0
Outside p f xs = (has p xs ≡ false) × ((b : Ptr) → has p (f b) ≡ false)

-- Links of ready processes are of no matter to those that wait.
pub OnlyLinks-SameBlock :
    (xs : List Ptr) (s t : Pcbs) (q : Ptr) → OnlyLinks xs s t → has q xs ≡ false → SameBlock s t q
OnlyLinks-SameBlock xs s t q links out = (
  links.outside_next q out,
  links.outside_prev q out,
  ap (λ (u : Pcbs). u.p_sem_add q) links.rest,
)

-- The scheduler takes the oldest ready process and disturbs no other.
pub scheduler-IsKernel :
    (arch : Arch) (k : Kernel) (f : Ptr → List Ptr) (x : Ptr) (xs : List Ptr)
    → IsKernel k f (x ∷ xs)
    → Leaves
        (Outcome.load_state x)
        (λ t.
          Runs x xs t
          × IsKernel t f xs
          × (t ≡ switched k x t)
          × OnlyLinks (x ∷ xs) (procs k) (procs t))
        (scheduler arch k)
scheduler-IsKernel arch k f x xs h =
    Leaves-weaken (scheduler-switches arch k x xs h.ready) λ t (ready, links, same). (
      (ap (λ (u : Kernel). u.current_process) same, ap (λ (u : Kernel). u.timer) same, ready),
      record {
        waiting =
            subst (λ s. Represents s f) (sym (ap (λ (u : Kernel). u.semds) same))
              (Represents-same k.semds (procs t) f h.waiting (λ b q i.
                OnlyLinks-SameBlock (x ∷ xs) (procs k) (procs t) q links (h.apart b q i)));
        ready = ready;
        apart = λ b q i. ground (arith, h.apart b q i);
      },
      same,
      links,
    )
